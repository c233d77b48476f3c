-- ===== src/Eph/Memory/Store.antt =====
-- eph/memory.go: sharedStore, the map of leases that the hosts of one process share. A method runs
-- under the store's mutex. `tested` and `now` are what its calls of time.Now return.
use azure_event_hubs_go.Base.{
  ℕ, ◌+◌, ◌-◌, String, Bool, true, false, not, ◌||◌, Option, none, some, [], ltb, ◌==◌,
  if◌then◌else◌,
}
use mathlib.Core.Option
use azure_event_hubs_go.Go.{second}
use azure_event_hubs_go.Dict.{Dict, lookup, insert, delete}
use azure_event_hubs_go.Eph.Lease.{Lease}

-- A checkpoint is a value of package persist: the parameter C. The pointer `leaser` is left out:
-- the store that it leads to is an argument where it is used.
pub record MemoryLease (C : Type 0) : Type 0 where
  pub lease : Lease
  pub open lease use *
  pub expiration_time : ℕ
  pub token : String
  pub checkpoint : Option C

pub record StoreLease (C : Type 0) : Type 0 where
  pub token : String
  pub expiration : ℕ
  pub ml : Option (MemoryLease C)

-- `none` is the nil map.
pub record SharedStore (C : Type 0) : Type 0 where
  pub leases : Option (Dict (StoreLease C))

module _ {C : Type 0} where
  -- Reading from a nil map finds nothing, and deleting from it does nothing.
  abbrev pub find : String → SharedStore C → Option (StoreLease C)
  find p s = elim s.leases [ none ↦ none | some m ↦ lookup p m ]

  -- A write through a pointer that the map holds under the key.
  abbrev pub write : String → StoreLease C → SharedStore C → SharedStore C
  write p l s = elim s.leases [ none ↦ s | some m ↦ record { leases = some (insert p l m) } ]

  -- The zero values of the Go types; the zero time is the origin of times.
  unfoldable pub new_memory_lease : String → MemoryLease C
  new_memory_lease p = record {
    lease = record { partition_id = p; epoch = 0; owner = "" };
    expiration_time = 0;
    token = "";
    checkpoint = none;
  }

  abbrev pub new_store_lease : StoreLease C
  new_store_lease = record { token = ""; expiration = 0; ml = none }

  unfoldable pub exists : SharedStore C → Bool
  exists s = elim s.leases [ none ↦ false | some m ↦ true ]

  unfoldable pub ensure : SharedStore C → SharedStore C × Bool
  ensure s = elim s.leases [ none ↦ (record { leases = some [] }, true) | some m ↦ (s, true) ]

  -- `none` is the panic of a nil pointer: the key or its lease is missing.
  unfoldable pub get_lease : String → SharedStore C → Option (MemoryLease C)
  get_lease p s = elim (find p s) [ none ↦ none | some l ↦ l.ml ]

  unfoldable pub delete_lease : String → SharedStore C → SharedStore C
  delete_lease p s = record { leases = Option.map (delete p) s.leases }

  -- The lease of an entry that is present in the map m, made if it is nil.
  unfoldable pub get_or_make :
      String → StoreLease C → Dict (StoreLease C) → Option (MemoryLease C) × SharedStore C
  unfolding new_memory_lease
  get_or_make p l m = elim l.ml [
    | some ml ↦ (some ml, record { leases = some (insert p l m) })
    | none ↦ (
      some (new_memory_lease p),
      record { leases = some (insert p (record l { ml = some (new_memory_lease p) }) m) },
    )
  ]

  -- `none` is the panic of a write to the nil map.
  unfoldable pub create_or_get_lease :
      String → SharedStore C → Option (MemoryLease C) × SharedStore C
  unfolding get_or_make
  create_or_get_lease p s = elim s.leases [
    | none ↦ (none, s)
    | some m ↦ elim (lookup p m) [
      | none ↦ get_or_make p new_store_lease m
      | some l ↦ get_or_make p l m
    ]
  ]

  unfoldable pub change_lease :
      String → String → String → ℕ → ℕ → SharedStore C → SharedStore C × Bool
  change_lease p new_token old_token duration now s = elim (find p s) [
    | none ↦ (s, false)
    | some l ↦
        if l.token == old_token
        then (write p (record l { token = new_token; expiration = now + duration }) s, true)
        else (s, false)
  ]

  -- time.Now().Add(-1 * time.Second); times are counted from the zero time, long before.
  unfoldable pub release_lease : String → String → ℕ → SharedStore C → SharedStore C × Bool
  release_lease p token now s = elim (find p s) [
    | none ↦ (s, false)
    | some l ↦
        if l.token == token
        then (write p (record l { token = ""; expiration = now - second }) s, true)
        else (s, false)
  ]

  unfoldable pub renew_lease : String → String → ℕ → ℕ → SharedStore C → SharedStore C × Bool
  renew_lease p token duration now s = elim (find p s) [
    | none ↦ (s, false)
    | some l ↦
        if l.token == token
        then (write p (record l { expiration = now + duration }) s, true)
        else (s, false)
  ]

  -- time.Now().After(l.expiration) || l.token == ""
  abbrev pub is_free : ℕ → StoreLease C → Bool
  is_free tested l = ltb l.expiration tested || l.token == ""

  unfoldable pub acquire_lease : String → String → ℕ → ℕ → ℕ → SharedStore C → SharedStore C × Bool
  acquire_lease p new_token duration tested now s = elim (find p s) [
    | none ↦ (s, false)
    | some l ↦
        if is_free tested l
        then (write p (record l { token = new_token; expiration = now + duration }) s, true)
        else (s, false)
  ]

  unfoldable pub store_lease :
      String → String → MemoryLease C → SharedStore C → SharedStore C × Bool
  store_lease p token ml s = elim (find p s) [
    | none ↦ (s, false)
    | some l ↦
        if l.token == token then (write p (record l { ml = some ml }) s, true) else (s, false)
  ]

  unfoldable pub is_leased : String → ℕ → SharedStore C → Bool
  is_leased p tested s = elim (find p s) [
    | none ↦ false
    | some l ↦ if is_free tested l then false else true
  ]

  -- IsExpired and isNotOwnedOrExpired of a memoryLease whose leaser has the store s.
  unfoldable pub is_expired : MemoryLease C → ℕ → SharedStore C → Bool
  unfolding is_leased
  is_expired l tested s = not (is_leased l.partition_id tested s)

  unfoldable pub is_not_owned_or_expired : MemoryLease C → ℕ → SharedStore C → Bool
  unfolding is_expired
  is_not_owned_or_expired l tested s = is_expired l tested s || l.owner == ""

  unfoldable pub expire_after : ℕ → ℕ → MemoryLease C → MemoryLease C
  expire_after d now l = record l { expiration_time = now + d }

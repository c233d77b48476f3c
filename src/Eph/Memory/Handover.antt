-- ===== src/Eph/Memory/Handover.antt =====
-- How checkpoints pass from one owner of a partition to the next through the store of
-- eph/memory.go.
use azure_event_hubs_go.Base.{
  String, ◌≡◌, refl, ◌∙◌, true, none, some, arith, eq_iff, ◌+◌, ℕ, ◌-◌, ◌%◌, ◌^◌,
}
use azure_event_hubs_go.Go.{returned, panicked, ok}
use azure_event_hubs_go.Dict.{lookup, lookup-insert_self}
use azure_event_hubs_go.Eph.Lease.{granted}
use azure_event_hubs_go.Eph.Memory.Store
use azure_event_hubs_go.Eph.Memory.Store.{write, StoreLease, MemoryLease, find, is_free}
use azure_event_hubs_go.Eph.Memory.Entry.{find-write}
use azure_event_hubs_go.Eph.Lease.{increment_epoch}
use azure_event_hubs_go.Go.{add_int64, second}
use azure_event_hubs_go.Eph.Memory.Leaser.{
  release_lease, MemoryLeaser, Processor, Readings, take_ownership, claim, acquire_lease,
}
use azure_event_hubs_go.Eph.Memory.Checkpointer.{
  get_checkpoint, ensure_checkpoint, update_checkpoint,
}
use azure_event_hubs_go.Eph.Memory.Acquire.{
  wins, won, claim-cases, acquire_lease-cases, holder-renews,
}

module _ {C : Type 0} (start_of_stream : C) where
  -- The host a has the lease under the token of the store's entry and writes the checkpoint c;
  -- then a host b of the same store that calls AcquireLease, and finds the entry free or with
  -- the token of the lease that it reads, gets c with the lease.
  pub handover :
      (p new : String) (t : Readings) (c : C) (a b : MemoryLeaser C) (e : StoreLease C)
      (mine : MemoryLease C) (h : Processor)
      → find p a.store ≡ some e
      → lookup p a.leases ≡ some mine
      → e.token ≡ mine.token
      → b.processor ≡ some h
      → wins p new t b e (record mine { checkpoint = some c }) h ≡ true
      → let after = record b { store = (update_checkpoint p c a).1.store } in
        let (r, b') = acquire_lease p (ok new) t after in
        (r ≡ returned (granted (take_ownership new h.name (record mine { checkpoint = some c }))))
        × (get_checkpoint start_of_stream p b' ≡ (returned (c, true), b'))
  unfolding get_checkpoint take_ownership
  handover p new t c a b e mine h held own same host win =
      let l : MemoryLease C = record mine { checkpoint = some c } in
      let e' : StoreLease C = record e { ml = some l } in
      let after : MemoryLeaser C = record b { store = (update_checkpoint p c a).1.store } in
      let entry : find p after.store ≡ some e' = (holder-renews p 0 c a e mine held own same).3 in
      rw (acquire_lease-cases p new t after e' l h entry refl host)
        (rw win (ground (arith, lookup-insert_self p (take_ownership new h.name l) b.leases)))

  -- Where AcquireLease gets a lease that has no checkpoint, reading its checkpoint panics, until
  -- EnsureCheckpoint has set the start of the stream.
  pub get_checkpoint-panics :
      (p new : String) (t : Readings) (b : MemoryLeaser C) (e : StoreLease C) (l : MemoryLease C)
      (h : Processor)
      → find p b.store ≡ some e
      → e.ml ≡ some l
      → b.processor ≡ some h
      → wins p new t b e l h ≡ true
      → l.checkpoint ≡ none
      → let b' = (acquire_lease p (ok new) t b).1 in
        let (c, b'') = ensure_checkpoint start_of_stream p b' in
        (get_checkpoint start_of_stream p b' ≡ (panicked, b'))
        × (c ≡ start_of_stream)
        × (get_checkpoint start_of_stream p b'' ≡ (returned (start_of_stream, true), b''))
  unfolding get_checkpoint ensure_checkpoint take_ownership
  get_checkpoint-panics p new t b e l h held has host win empty =
      rw (acquire_lease-cases p new t b e l h held has host) (
        rw win (
          ground (
            arith,
            empty,
            lookup-insert_self p (take_ownership new h.name l) b.leases,
            lookup-insert_self p
                (record (take_ownership new h.name l) { checkpoint = some start_of_stream })
                (won p new t b e l h).leases,
          )))

module _ {C : Type 0} where
  -- What a checkpoint and then a release leave of an entry that the host holds.
  release_lease-update_checkpoint :
      (p : String) (now : ℕ) (c : C) (a : MemoryLeaser C) (e : StoreLease C) (mine : MemoryLease C)
      → find p a.store ≡ some e
      → lookup p a.leases ≡ some mine
      → e.token ≡ mine.token
      → let (r, a') = release_lease p now (update_checkpoint p c a).1 in
        (r ≡ (true, none))
        × (find p a'.store
            ≡ some (record e {
              token = "";
              expiration = now - second;
              ml = some (record mine { checkpoint = some c });
            }))
  unfolding release_lease update_checkpoint
  release_lease-update_checkpoint p now c a e mine held own same =
      let mine' : MemoryLease C = record mine { checkpoint = some c } in
      let e' : StoreLease C = record e { ml = some mine' } in
      ground (
        arith,
        eq_iff e.token mine.token,
        find-write p p e' e a.store held,
        find-write p p (record e' { token = ""; expiration = now - second }) e' (write p e' a.store)
            (find-write p p e' e a.store held ∙ ground (arith, eq_iff p p)),
        lookup-insert_self p mine' a.leases,
        eq_iff p p,
      )

  -- Host b begins AcquireLease and reads the lease of the entry, which host a holds. Then a writes
  -- the checkpoint c and releases the lease, both without an error, and b goes on: its call
  -- succeeds, and the store has the lease that b read before, with the new token, the name of b and
  -- the next epoch, and so with the checkpoint before c.
  pub claim-overwrites :
      (p new : String) (now : ℕ) (t : Readings) (c : C) (a b : MemoryLeaser C) (e : StoreLease C)
      (mine : MemoryLease C) (h : Processor)
      → find p a.store ≡ some e
      → e.ml ≡ some mine
      → lookup p a.leases ≡ some mine
      → e.token ≡ mine.token
      → b.processor ≡ some h
      → let (written, a1) = update_checkpoint p c a in
        let (released, a2) = release_lease p now a1 in
        let (r, b') = claim p new mine t (record b { store = a2.store }) in
        let taken : MemoryLease C = record mine {
          token = new;
          lease = record mine.lease { owner = h.name; epoch = (mine.lease.epoch + 1) % 2 ^ 64 };
        } in
        (Store.get_lease p a.store ≡ some mine)
        × (written ≡ none)
        × (released ≡ (true, none))
        × (r ≡ returned (granted taken))
        × (Store.get_lease p b'.store ≡ some taken)
        × (taken.checkpoint ≡ mine.checkpoint)
  unfolding take_ownership increment_epoch add_int64 Store.get_lease
  claim-overwrites p new now t c a b e mine h held has own same host =
      let (released, entry) = release_lease-update_checkpoint p now c a e mine held own same in
      let b0 : MemoryLeaser C = record b {
        store = (release_lease p now (update_checkpoint p c a).1).1.store;
      } in
      let e' : StoreLease C = record e {
        token = "";
        expiration = now - second;
        ml = some (record mine { checkpoint = some c });
      } in
      let taken : StoreLease C = record e' {
        token = new;
        expiration = t.now + b.lease_duration;
        ml = some (take_ownership new h.name mine);
      } in
      let cases = claim-cases p new t b0 e' mine h entry host in
      let written = holder-renews p now c a e mine held own same in
      let stored = find-write p p taken e' b0.store entry in
      (
        ground arith,
        written.2,
        released,
        ground (arith, cases, eq_iff "" ""),
        ground (arith, cases, stored, eq_iff "" "", eq_iff p p),
        refl,
      )

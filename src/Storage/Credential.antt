-- ===== src/Storage/Credential.antt =====
-- storage/credential.go: the SAS token of an AADSASCredential and the policy that signs requests.
-- Times are nanoseconds since a moment more than an hour ago. A method runs under lockMu.
use Prim.Native.String.{◌++◌}
use azure_event_hubs_go.Base.{
  ◌≡◌, ◌⊎◌, inl, inr, refl, ℕ, ◌+◌, ◌-◌, ◌*◌, ◌/◌, ◌<◌, ◌≤◌, String, Option, none, some, ◌==◌, ltb,
  if◌then◌else◌, Bool-cases, arith,
}
use azure_event_hubs_go.Go.{Result, ok, err, second, Call, ◌>>=◌, lift, Result-cases}

pub record SasToken : Type 0 where
  pub sas : String
  pub expiry : ℕ

pub record Credential (W : Type 0) : Type 0 where
  pub token : Option SasToken
  pub world : W

-- time.Time.Round(time.Second)
abbrev pub round : ℕ → ℕ
round t = (t + second / 2) / second * second

-- ListAccountSAS of the account, with the start and the expiry of the token it is asked for; the
-- other parameters of the request are constants.
module _ {W : Type 0} (list_account_sas : ℕ → ℕ → Call W String) where
  unfoldable pub refresh_token : ℕ → Call W SasToken
  refresh_token now = do
    let start = now - second
    let expiry = start + 3600 * second
    sas ← list_account_sas (round start) (round expiry)
    lift (ok (record { sas = sas; expiry = expiry }))

  unfoldable pub keep_token : Result SasToken × W → Credential W → Result SasToken × Credential W
  keep_token (ok t, w) cred = (ok t, record cred { token = some t; world = w })
  keep_token (err e, w) cred = (err e, record cred { world = w })

  -- The clock is read when the cached token is tested, and again for a new token.
  unfoldable pub get_token : ℕ → ℕ → Credential W → Result SasToken × Credential W
  unfolding refresh_token keep_token
  get_token checked now cred =
      let refreshed = keep_token (refresh_token now cred.world) cred in
      elim cred.token [
        | none ↦ refreshed
        | some t ↦ if ltb (t.expiry + 300 * second) checked then (ok t, cred) else refreshed
      ]

  -- The policy of New: `next` sends the request with the query.
  unfoldable pub sign :
      {R : Type 0} → (String → Call W R) → String → ℕ → ℕ → Credential W → Result R × Credential W
  unfolding get_token
  sign next query checked now cred =
      let (token, cred') = get_token checked now cred in
      elim token [
        | err e ↦ (err e, cred')
        | ok t ↦
            let signed = if query == "" then t.sas else query ++ "&" ++ t.sas in
            let (r, w) = next signed cred'.world in (r, record cred' { world = w })
      ]

  -- Without a cached token, getToken asks the service for one that starts a second ago and expires
  -- an hour after that, both rounded to seconds. The token that it gets is cached, and a second call
  -- returns it only if more than five minutes have passed since its expiry; while it is valid, and
  -- for those five minutes, the second call asks the service in the same way again.
  pub get_token-again :
      (checked now checked' now' : ℕ) (sas : String) (w w' : W)
      → list_account_sas (round (now - second)) (round (now - second + 3600 * second)) w
        ≡ (ok sas, w')
      → let t : SasToken = record { sas = sas; expiry = now - second + 3600 * second } in
        let cred : Credential W = record { token = some t; world = w' } in
        (get_token checked now (record { token = none; world = w }) ≡ (ok t, cred))
        × (((t.expiry + 300 * second < checked') × (get_token checked' now' cred ≡ (ok t, cred)))
            ⊎ ((checked' ≤ t.expiry + 300 * second)
                × ((get_token checked' now' cred).1.world
                    ≡ (list_account_sas
                        (round (now' - second))
                        (round (now' - second + 3600 * second))
                        w').1)))
  unfolding get_token refresh_token keep_token
  get_token-again checked now checked' now' sas w w' h =
      let expiry = now - second + 3600 * second in
      (
        rw h refl,
        elim (Bool-cases (ltb (expiry + 300 * second) checked')) [
          | inl e ↦ inl (ground arith, rw e refl)
          | inr e ↦ inr (
            ground arith,
            elim (Result-cases
                (list_account_sas (round (now' - second)) (round (now' - second + 3600 * second))
                  w').0) [
                    | inl (s', f) ↦ rw e (rw (f) (ground arith))
                    | inr (x, f) ↦ rw e (ground arith)
                  ],
          )
        ],
      )

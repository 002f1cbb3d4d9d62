-- ===== src/Config/Accepted.antt =====
-- What Validate of shim/internal/config/config.go promises of a configuration that it accepts.
use dropin_queue.Base.{
  ◌≡◌, ◌≢◌, Text, refl, ◌⊎◌, inl, inr, true, false, List, [], ◌∷◌, ◌++◌, arith, ℤ, pos, negsuc,
  eq_ℤ, is_empty, Bool, not, Bool-cases, ◌==◌, ap, sym, ◌∙◌, ◌&&◌,
}
use dropin_queue.Config.{
  Config, Complaint, Backend, nats, postgres, backend_complaints, is_production, validate,
  is_odd_quorum, check, AuthMode, LogLevel, auth_complaints, level_complaints, other_complaints,
  is_valid_account_id,
}

parts : (xs ys : List Complaint) → xs ++ ys ≡ [] → (xs ≡ []) × (ys ≡ [])
parts [] ys e = (refl, e)
parts (x ∷ xs) ys e = absurd (cc e)

-- The backend that a configuration chooses can be started: NATS with a URL and an odd number of
-- replicas, three or five of them in production, or Postgres with a DSN.
abbrev pub Startable : Backend → Config → Type 0
Startable nats c =
    (is_empty c.nats_url ≡ false)
    × ((c.stream_replicas ≡ pos 3)
        ⊎ ((c.stream_replicas ≡ pos 5) ⊎ ((c.stream_replicas ≡ pos 1) × (is_production c ≡ false))))
Startable postgres c = is_empty c.postgres_dsn ≡ false
Startable Backend.unknown c = ⊥

checked : (bad : Bool) (e : Complaint) → check bad e ≡ [] → bad ≡ false
checked true e h = absurd (cc h)
checked false e h = refl

unnegated : (b : Bool) → not b ≡ false → b ≡ true
unnegated true h = refl
unnegated false h = absurd (cc h)

-- Three or five, or one.
quorum : (n : ℤ) → is_odd_quorum n ≡ true → (n ≡ pos 3) ⊎ ((n ≡ pos 5) ⊎ (n ≡ pos 1))
quorum (pos n) h = elim (Bool-cases (n == 3)) [
  | inl three ↦ inl (ap pos (ground (arith, three)))
  | inr not_three ↦ elim (Bool-cases (n == 5)) [
    | inl five ↦ inr (inl (ap pos (ground (arith, five))))
    | inr not_five ↦ inr (inr (ap pos (ground (arith, h, not_three, not_five))))
  ]
]
quorum (negsuc n) h = absurd (cc h)

in_production :
    (production : Bool) (n : ℤ)
    → (n ≡ pos 3) ⊎ ((n ≡ pos 5) ⊎ (n ≡ pos 1))
    → production && eq_ℤ n (pos 1) ≡ false
    → (n ≡ pos 3) ⊎ ((n ≡ pos 5) ⊎ ((n ≡ pos 1) × (production ≡ false)))
in_production production n (inl three) h = inl three
in_production production n (inr (inl five)) h = inr (inl five)
in_production true n (inr (inr one)) h = absurd (cc (sym h ∙ ap (λ k. eq_ℤ k (pos 1)) one))
in_production false n (inr (inr one)) h = inr (inr (one, refl))

startable : (k : Backend) (c : Config) → backend_complaints k c ≡ [] → Startable k c
startable nats c e =
    let (url, es) = parts _ _ e in
    let (odd, few) = parts _ _ es in
    (
      checked _ _ url,
      in_production (is_production c) c.stream_replicas
          (quorum c.stream_replicas (unnegated _ (checked _ _ odd))) (checked _ _ few),
    )
startable postgres c e = checked _ _ (parts _ _ e).0
startable Backend.unknown c e = absurd (cc e)

-- What every configuration needs, whatever its backend: an address to listen on, a region, an account
-- of twelve digits if one is given, and modes that the code knows.
pub record IsIdentified (c : Config) : Type 0 where
  pub addr : is_empty c.addr ≡ false
  pub account : (c.account_id ≡ []) ⊎ (is_valid_account_id c.account_id ≡ true)
  pub region : is_empty c.region ≡ false
  pub auth : c.auth_mode ≢ AuthMode.unknown
  pub level : c.log_level ≢ LogLevel.unknown

known_mode : (m : AuthMode) → auth_complaints m ≡ [] → m ≢ AuthMode.unknown
known_mode m e same = absurd (cc (sym e ∙ ap auth_complaints same))

known_level : (l : LogLevel) → level_complaints l ≡ [] → l ≢ LogLevel.unknown
known_level l e same = absurd (cc (sym e ∙ ap level_complaints same))

given_or_not :
    (s : Text) (valid : Bool) → not (is_empty s) && not valid ≡ false → (s ≡ []) ⊎ (valid ≡ true)
given_or_not [] valid h = inl refl
given_or_not (x ∷ s) valid h = inr (unnegated valid h)

identified : (c : Config) → is_empty c.addr ≡ false → other_complaints c ≡ [] → IsIdentified c
identified c addr e =
    let (account, es) = parts _ _ e in
    let (region, fs) = parts _ _ es in
    let (mode, gs) = parts (auth_complaints c.auth_mode) _ fs in
    let (level, rest) = parts (level_complaints c.log_level) _ gs in
    record {
      addr = addr;
      account = given_or_not c.account_id (is_valid_account_id c.account_id) (checked _ _ account);
      region = checked _ _ region;
      auth = known_mode c.auth_mode mode;
      level = known_level c.log_level level;
    }

-- A configuration that is accepted chooses NATS, with a URL, and with three or five replicas or,
-- where signatures are not checked, one; or it chooses Postgres, with a DSN. It has an address, a
-- region, no account id or one of twelve digits, and an authentication mode and a log level that the
-- code knows.
pub validate-IsIdentified : (c : Config) → validate c ≡ [] → Startable c.backend c × IsIdentified c
unfolding validate
validate-IsIdentified c e =
    let (addr, es) = parts _ _ e in
    let (chosen, others) = parts (backend_complaints c.backend c) _ es in
    (startable c.backend c chosen, identified c (checked _ _ addr) others)

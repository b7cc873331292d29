-- ===== src/Redisx/Refund.antt =====
-- What the debit of a session does (redisx.go, QuotaSnapshotDeduct), and a run of debits and refunds.
use ykt_aisaas.Base.{
  ℕ, ◌≡◌, ◌∙◌, ap, refl, inl, inr, Bool-cases, Option, none, some, List, [], ◌∷◌, Text, ℤ, negsuc,
}
use ykt_aisaas.Redis.{Redis, Link, answered, refused, lost}
use ykt_aisaas.Redisx.{
  key_quota_limit, key_session_quota, number_or, ltz, snapshot_failed, snapshot_deducted, hash_get,
  run,
}
use ykt_aisaas.Redisx.SessionQuota.{
  snapshot_limited, lua_quota_snapshot_deduct, quota_snapshot_deduct, read_initial, refund_rest,
  quota_snapshot_refund,
}

-- A call on the quota of a session, with the month and the links of its commands
pub data SessionCall : Type 0 where
  debit : (link : Link) → Text → ℕ → Text → Text → ℤ → SessionCall
  refund : (l₀ l₁ l₂ : Link) → Text → ℕ → Text → Text → ℤ → SessionCall

module _ (R : Redis) where
  open R use {Db, read, slice_of}

  unfoldable pub perform : SessionCall → Db → Db
  unfolding quota_snapshot_deduct quota_snapshot_refund
  perform (debit link ym tenant_id dim session_id amount) d =
      (quota_snapshot_deduct R link ym tenant_id dim session_id amount d).1
  perform (refund l₀ l₁ l₂ ym tenant_id dim session_id actual_used) d =
      (quota_snapshot_refund R l₀ l₁ l₂ ym tenant_id dim session_id actual_used d).1

  unfoldable pub perform_all : List SessionCall → Db → Db
  unfolding perform
  perform_all [] d = d
  perform_all (c ∷ calls) d = perform_all calls (perform c d)

  no_slice : (limit : Option ℤ) → slice_of (snapshot_limited R limit) ≡ none
  unfolding snapshot_limited
  no_slice none = R.slice_of-script_error
  no_slice (some limit) = elim (Bool-cases (ltz limit)) [
    | inl unlimited ↦ rw unlimited (R.slice_of-integer (negsuc 1))
    | inr limited ↦ rw limited R.slice_of-script_error
  ]

  pub quota_snapshot_deduct_fails :
      (link : Link) (ym : Text) (tenant_id : ℕ) (dim session_id : Text) (amount : ℤ) (d : Db)
      → quota_snapshot_deduct R link ym tenant_id dim session_id amount d ≡ (snapshot_failed, d)
  unfolding quota_snapshot_deduct run lua_quota_snapshot_deduct snapshot_deducted
  quota_snapshot_deduct_fails answered ym tenant_id dim session_id amount d =
      rw (no_slice (number_or (negsuc 0) (read d (key_quota_limit tenant_id dim ym)))) refl
  quota_snapshot_deduct_fails refused ym tenant_id dim session_id amount d =
      rw R.slice_of-script_error refl
  quota_snapshot_deduct_fails lost ym tenant_id dim session_id amount d =
      rw R.slice_of-script_error refl

  quota_snapshot_refund-same :
      (l₀ l₁ l₂ : Link) (ym : Text) (tenant_id : ℕ) (dim session_id : Text) (actual_used : ℤ)
      (d : Db)
      → read d (key_session_quota session_id dim) ≡ none
      → (quota_snapshot_refund R l₀ l₁ l₂ ym tenant_id dim session_id actual_used d).1 ≡ d
  unfolding quota_snapshot_refund read_initial refund_rest
  quota_snapshot_refund-same answered l₁ l₂ ym tenant_id dim session_id actual_used d gone =
      rw gone (unfold hash_get in refl)
  quota_snapshot_refund-same refused l₁ l₂ ym tenant_id dim session_id actual_used d gone = refl
  quota_snapshot_refund-same lost l₁ l₂ ym tenant_id dim session_id actual_used d gone = refl

  perform-same :
      (c : SessionCall) (d : Db)
      → ((session_id dim : Text) → read d (key_session_quota session_id dim) ≡ none)
      → perform c d ≡ d
  unfolding perform
  perform-same (debit link ym tenant_id dim session_id amount) d gone =
      ap (λ r. r.1) (quota_snapshot_deduct_fails link ym tenant_id dim session_id amount d)
  perform-same (refund l₀ l₁ l₂ ym tenant_id dim session_id actual_used) d gone =
      quota_snapshot_refund-same l₀ l₁ l₂ ym tenant_id dim session_id actual_used d
        (gone session_id dim)

  perform_all-same :
      (calls : List SessionCall) (d : Db)
      → ((session_id dim : Text) → read d (key_session_quota session_id dim) ≡ none)
      → perform_all calls d ≡ d
  unfolding perform_all
  perform_all-same [] d gone = refl
  perform_all-same (c ∷ calls) d gone =
      ap (perform_all calls) (perform-same c d gone) ∙ perform_all-same calls d gone

  -- Session quotas are never counted: any run of debits and refunds of sessions, however their
  -- commands end, from a database without snapshots leaves the database as it was, and a debit
  -- after it fails and changes nothing, since the script names a variable that it does not have.
  pub sessions_uncounted :
      (calls : List SessionCall) (d : Db) (link : Link) (ym : Text) (tenant_id : ℕ)
      (dim session_id : Text) (amount : ℤ)
      → ((session dim : Text) → read d (key_session_quota session dim) ≡ none)
      → (perform_all calls d ≡ d)
        × (quota_snapshot_deduct R link ym tenant_id dim session_id amount (perform_all calls d)
            ≡ (snapshot_failed, d))
  sessions_uncounted calls d link ym tenant_id dim session_id amount gone =
      let same = perform_all-same calls d gone in
      (
        same,
        quota_snapshot_deduct_fails link ym tenant_id dim session_id amount (perform_all calls d)
            ∙ ap (λ (e : Db). (snapshot_failed, e)) same,
      )

-- ===== src/Redisx/Keys.antt =====
-- The keys of redisx.go: counters of different tenants, dimensions or months never share a key, and
-- a counter's key is never a limit's key or a session's.
use mathlib.Core.List.{append_assoc}
use ykt_aisaas.Base.{
  ℕ, ◌≡◌, ◌==◌, ◌&&◌, text_eq_iff, ◌∙◌, sym, [], ◌∷◌, ◌++◌, arith, Text, codes, decimal, NoColon,
  All-digits-NoColon, All-digits-decimal, split_at_colon, append-cancel, decimal-injective, text_eq,
  text_eq_ne, false, subst, refl,
}
use ykt_aisaas.Redisx.{key_quota_used, key_quota_limit, key_session_quota}

-- The part of a counter's key behind its prefix, up to the month.
abbrev quota_tail : Text → Text → Text
quota_tail dim ym = codes "quota:" ++ (dim ++ (codes ":" ++ ym))

used-split :
    (t t' : ℕ) (dim dim' ym ym' : Text)
    → key_quota_used t dim ym ≡ key_quota_used t' dim' ym'
    → (decimal t ≡ decimal t') × (quota_tail dim ym ≡ quota_tail dim' ym')
unfolding key_quota_used
used-split t t' dim dim' ym ym' e =
    split_at_colon (decimal t) (decimal t') (quota_tail dim ym) (quota_tail dim' ym')
      (All-digits-NoColon (decimal t) (All-digits-decimal t))
      (All-digits-NoColon (decimal t') (All-digits-decimal t'))
      (append-cancel (codes "aisaas:tenant:") _ _ e)

-- Two counters share a key only if tenant, dimension and month are the same, for dimensions
-- without a colon.
pub key_quota_used-injective :
    (t t' : ℕ) (dim dim' ym ym' : Text)
    → NoColon dim
    → NoColon dim'
    → key_quota_used t dim ym ≡ key_quota_used t' dim' ym'
    → (t ≡ t') × (dim ≡ dim') × (ym ≡ ym')
key_quota_used-injective t t' dim dim' ym ym' h h' e =
    let (same_id, same_tail) = used-split t t' dim dim' ym ym' e in
    let (same_dim, same_ym) =
      split_at_colon dim dim' ym ym' h h' (append-cancel (codes "quota:") _ _ same_tail) in
    (decimal-injective t t' same_id, same_dim, same_ym)

has_colon : (s u : Text) → ¬ NoColon (s ++ (58 ∷ u))
has_colon [] u h = h.0 (omega arith)
has_colon (c ∷ s) u h = has_colon s u h.1

key_quota_limit_lem :
    (t : ℕ) (dim ym : Text) → key_quota_limit t dim ym ≡ key_quota_used t dim (ym ++ codes ":limit")
unfolding key_quota_used key_quota_limit
key_quota_limit_lem t dim ym = simp append_assoc

-- A counter's key is never a limit's key.
pub key_quota_used-ne-limit :
    (t t' : ℕ) (dim dim' ym ym' : Text)
    → NoColon dim
    → NoColon dim'
    → NoColon ym
    → text_eq (key_quota_used t dim ym) (key_quota_limit t' dim' ym') ≡ false
key_quota_used-ne-limit t t' dim dim' ym ym' h h' k = text_eq_ne _ _ λ e.
    has_colon ym' (codes "limit") (
      subst NoColon
        (key_quota_used-injective t t' dim dim' ym (ym' ++ codes ":limit") h h'
          (e ∙ key_quota_limit_lem t' dim' ym')).2
        k)

-- A session's key is never a counter's key.
pub key_session_quota-ne-used :
    (t : ℕ) (sid dim dim' ym : Text)
    → text_eq (key_session_quota sid dim) (key_quota_used t dim' ym) ≡ false
unfolding key_session_quota key_quota_used text_eq
key_session_quota-ne-used t sid dim dim' ym = refl

pub key_quota_used-ne-session :
    (t : ℕ) (sid dim dim' ym : Text)
    → text_eq (key_quota_used t dim' ym) (key_session_quota sid dim) ≡ false
unfolding key_session_quota key_quota_used text_eq
key_quota_used-ne-session t sid dim dim' ym = refl

-- Two limits share a key only if tenant and dimension are the same.
pub key_quota_limit-injective :
    (t t' : ℕ) (dim dim' ym : Text)
    → NoColon dim
    → NoColon dim'
    → key_quota_limit t dim ym ≡ key_quota_limit t' dim' ym
    → (t ≡ t') × (dim ≡ dim')
key_quota_limit-injective t t' dim dim' ym h h' e =
    let (same_id, same_dim, _) =
      key_quota_used-injective t t' dim dim' (ym ++ codes ":limit") (ym ++ codes ":limit") h h'
        (sym (key_quota_limit_lem t dim ym) ∙ e ∙ key_quota_limit_lem t' dim' ym) in
    (same_id, same_dim)

pub key_quota_limit-text_eq :
    (t t' : ℕ) (dim dim' ym : Text)
    → NoColon dim
    → NoColon dim'
    → text_eq (key_quota_limit t dim ym) (key_quota_limit t' dim' ym)
      ≡ (t == t' && text_eq dim dim')
key_quota_limit-text_eq t t' dim dim' ym h h' = ground (
  arith,
  same_key,
  text_eq_iff (key_quota_limit t dim ym) (key_quota_limit t' dim' ym),
  text_eq_iff dim dim',
  key_quota_limit-injective t t' dim dim' ym h h',
)
  where
    same_key : t ≡ t' → dim ≡ dim' → key_quota_limit t dim ym ≡ key_quota_limit t' dim' ym
    same_key e e' = rw (e, e') refl

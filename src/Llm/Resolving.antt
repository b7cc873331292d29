-- ===== src/Llm/Resolving.antt =====
-- What ResolveFor answers, over any run of calls by any tenants.
use mathlib.Core.List.{Memᴰ}
use mathlib.Core.List.Memᴰ.{head, tail}
use ykt_aisaas.Base.{
  ℕ, suc, ◌+◌, ltb, ◌≡◌, refl, sym, ap, subst, Bool, true, false, not, Option, none, some, List, [],
  ◌∷◌, inl, inr, Bool-cases, Text, text_eq, text_eq_iff, text_eq_refl, Assoc, lookup, put,
  lookup-put, if◌then◌else◌, arith,
}
use ykt_aisaas.Errs.{model_not_found}
use ykt_aisaas.Auth.{is_one}
use ykt_aisaas.Llm.{
  ModelDo, Models, Resolved, CacheEntry, cache_ttl, cache_key, Answer, ok, err, is_of, first_where,
  or_else, select_model, fresh, loaded, load_uncached, load, decrypted, resolved, resolve_for,
}
use ykt_aisaas.Llm.Visible.{IsVisible, IsSoundCache, put-IsSoundCache, select_model-IsVisible}

-- A call of ResolveFor: whether the database answers, the time, who asks for what, and the table.
pub record Ask (F : Type 0) : Type 0 where
  pub answers : Bool
  pub now : ℕ
  pub tid : ℕ
  pub model_id : Text
  pub want : Text
  pub table : Models F

module _ {F : Type 0} where
  -- That a call of the list, by the tenant for the model id, read the model from its table.
  pub record WasRead (qs : List (Ask F)) (tid : ℕ) (model_id : Text) (p : Ask F) (m : ModelDo F)
      : Type 0 where
    pub asked : Memᴰ p qs
    pub answered : p.answers ≡ true
    pub same_tenant : p.tid ≡ tid
    pub same_model : p.model_id ≡ model_id
    pub selected : select_model tid model_id p.table ≡ some m

  -- An entry that a call of the list left
  abbrev IsLeft : List (Ask F) → ℕ → Text → CacheEntry F → Type 0
  IsLeft qs tid model_id e =
      (p : Ask F) × WasRead qs tid model_id p e.model × (e.expire ≡ p.now + cache_ttl)

  -- A model that a call of the list read, no longer ago than the cache keeps it
  abbrev pub IsRecent : List (Ask F) → Ask F → ModelDo F → Type 0
  IsRecent qs q m =
      (p : Ask F) × WasRead qs q.tid q.model_id p m × (ltb q.now (p.now + cache_ttl) ≡ true)

  abbrev LoadsRecent : List (Ask F) → Ask F → Answer (ModelDo F) × Assoc (CacheEntry F) → Type 0
  LoadsRecent qs q r =
      ((m : ModelDo F) → r.0 ≡ ok m → IsRecent qs q m) × IsSoundCache (IsLeft qs) r.1

  loaded-LoadsRecent :
      (qs : List (Ask F)) (q : Ask F) (found : Option (ModelDo F)) (cache : Assoc (CacheEntry F))
      → Memᴰ q qs
      → q.answers ≡ true
      → select_model q.tid q.model_id q.table ≡ found
      → IsSoundCache (IsLeft qs) cache
      → LoadsRecent qs q (loaded q.now (cache_key q.tid q.model_id) found cache)
  unfolding loaded
  loaded-LoadsRecent qs q none cache asked answered h s = (λ m e. absurd (ground (arith, e)), s)
  loaded-LoadsRecent qs q (some m) cache asked answered h s = (
    λ m' e. let same : m ≡ m' = ground (arith, e) in subst (IsRecent qs q) same (q, read, soon),
    put-IsSoundCache (IsLeft qs) q.tid q.model_id (record { model = m; expire = q.now + cache_ttl })
        cache (q, read, refl) s,
  )
    where
      read : WasRead qs q.tid q.model_id q m
      read = record {
        asked = asked;
        answered = answered;
        same_tenant = refl;
        same_model = refl;
        selected = h;
      }

      soon : ltb q.now (q.now + cache_ttl) ≡ true
      soon = ground arith

  load_uncached-LoadsRecent :
      (qs : List (Ask F)) (q : Ask F) (found : Option (ModelDo F)) (cache : Assoc (CacheEntry F))
      → Memᴰ q qs
      → ((m : ModelDo F) → found ≡ some m → IsRecent qs q m)
      → IsSoundCache (IsLeft qs) cache
      → LoadsRecent qs q (load_uncached q.answers q.now q.tid q.model_id found q.table cache)
  unfolding load_uncached
  load_uncached-LoadsRecent qs q (some m) cache asked known s = (
    λ m' e. let same : m ≡ m' = ground (arith, e) in subst (IsRecent qs q) same (known m refl),
    s,
  )
  load_uncached-LoadsRecent qs q none cache asked known s = elim (Bool-cases q.answers) [
    | inl yes_answers ↦ simp (yes_answers) (
        loaded-LoadsRecent qs q (select_model q.tid q.model_id q.table) cache asked yes_answers refl
          s)
    | inr no_answer ↦ simp (no_answer) (λ m e. absurd (ground (arith, e)), s)
  ]

  fresh_known :
      (qs : List (Ask F)) (q : Ask F) (found : Option (CacheEntry F)) (m : ModelDo F)
      → ((e : CacheEntry F) → found ≡ some e → IsLeft qs q.tid q.model_id e)
      → fresh q.now found ≡ some m
      → IsRecent qs q m
  unfolding fresh
  fresh_known qs q none m known h = absurd (ground (arith, h))
  fresh_known qs q (some e) m known h = in_time (ltb q.now e.expire) refl h
    where
      in_time :
          (b : Bool)
          → ltb q.now e.expire ≡ b
          → (if b then some e.model else none) ≡ some m
          → IsRecent qs q m
      in_time true soon h =
          let (p, read, until) = known e refl in
          let same : e.model ≡ m = ground (arith, h) in
          subst (IsRecent qs q) same (p, read, rw until at soon)
      in_time false late h = absurd (ground (arith, h))

  load-LoadsRecent :
      (qs : List (Ask F)) (q : Ask F) (cache : Assoc (CacheEntry F))
      → Memᴰ q qs
      → IsSoundCache (IsLeft qs) cache
      → LoadsRecent qs q (load q.answers q.now q.tid q.model_id q.table cache)
  unfolding load
  load-LoadsRecent qs q cache asked s =
      load_uncached-LoadsRecent qs q (fresh q.now (lookup (cache_key q.tid q.model_id) cache)) cache
        asked
        (λ m h.
          fresh_known qs q (lookup (cache_key q.tid q.model_id) cache) m
            (λ e found. s q.tid q.model_id e found) h)
        s

  -- The model behind an answer, which one of the calls read
  pub record ServedBy (decrypt : Text → Option Text) (qs : List (Ask F)) (q : Ask F) (r : Resolved)
      (p : Ask F) (m : ModelDo F) : Type 0 where
    pub read : WasRead qs q.tid q.model_id p m
    pub recent : ltb q.now (p.now + cache_ttl) ≡ true
    pub visible : IsVisible p.table q.tid q.model_id m
    pub kind : m.kind ≡ q.want
    pub status : is_one m.status ≡ true
    pub api_key : decrypt m.api_key_enc ≡ some r.api_key
    pub base_url : r.base_url ≡ m.base_url
    pub upstream_model : r.upstream_model ≡ m.upstream_model

  decrypted_ok :
      (m : ModelDo F) (key : Option Text) (r : Resolved)
      → decrypted m key ≡ ok r
      → (key ≡ some r.api_key) × (r.base_url ≡ m.base_url) × (r.upstream_model ≡ m.upstream_model)
  unfolding decrypted
  decrypted_ok m none r h = absurd (ground (arith, h))
  decrypted_ok m (some key) r h = (
    ap (λ a. some (part (λ q. q.api_key) a)) h,
    ap (λ a. part (λ q. q.base_url) a) (sym h),
    ap (λ a. part (λ q. q.upstream_model) a) (sym h),
  )
    where
      part : (Resolved → Text) → Answer Resolved → Text
      part f (ok q) = f q
      part f (err e) = []

  resolved_ok :
      (decrypt : Text → Option Text) (qs : List (Ask F)) (q : Ask F) (a : Answer (ModelDo F))
      (r : Resolved)
      → ((m : ModelDo F) → a ≡ ok m → IsRecent qs q m)
      → resolved decrypt q.want a ≡ ok r
      → (p : Ask F) × (m : ModelDo F) × ServedBy decrypt qs q r p m
  unfolding resolved
  resolved_ok decrypt qs q (err e) r known h = absurd (ground (arith, h))
  resolved_ok decrypt qs q (ok m) r known h =
      kinds (text_eq m.kind q.want) (is_one m.status) refl refl h
    where
      kinds :
          (k s : Bool)
          → text_eq m.kind q.want ≡ k
          → is_one m.status ≡ s
          → (if not k
              then err model_not_found
              else if not s
              then err model_not_found
              else decrypted m (decrypt m.api_key_enc))
            ≡ ok r
          → (p : Ask F) × (m : ModelDo F) × ServedBy decrypt qs q r p m
      kinds false s ek es h = absurd (ground (arith, h))
      kinds true false ek es h = absurd (ground (arith, h))
      kinds true true ek es h =
          let (key, url, upstream) = decrypted_ok m (decrypt m.api_key_enc) r h in
          let (p, read, soon) = known m refl in
          (
            p,
            m,
            record {
              read = read;
              recent = soon;
              visible = select_model-IsVisible q.tid q.model_id p.table m read.selected;
              kind = (text_eq_iff m.kind q.want).0 ek;
              status = es;
              api_key = key;
              base_url = url;
              upstream_model = upstream;
            },
          )

  abbrev pub ask :
      (Text → Option Text) → Ask F → Assoc (CacheEntry F) → Answer Resolved × Assoc (CacheEntry F)
  ask decrypt q cache = resolve_for decrypt q.answers q.now q.tid q.model_id q.want q.table cache

  unfoldable pub ask_all :
      (Text → Option Text) → List (Ask F) → Assoc (CacheEntry F) → Assoc (CacheEntry F)
  ask_all decrypt [] cache = cache
  ask_all decrypt (q ∷ qs) cache = ask_all decrypt qs (ask decrypt q cache).1

  ask_all-IsSoundCache :
      (decrypt : Text → Option Text) (all qs : List (Ask F)) (cache : Assoc (CacheEntry F))
      → ((p : Ask F) → Memᴰ p qs → Memᴰ p all)
      → IsSoundCache (IsLeft all) cache
      → IsSoundCache (IsLeft all) (ask_all decrypt qs cache)
  unfolding ask_all resolve_for
  ask_all-IsSoundCache decrypt all [] cache among s = s
  ask_all-IsSoundCache decrypt all (q ∷ qs) cache among s =
      ask_all-IsSoundCache decrypt all qs (load q.answers q.now q.tid q.model_id q.table cache).1
        (λ p m. among p (tail m)) (load-LoadsRecent all q cache (among q (head refl)) s).1

  -- After any calls by any tenants from an empty cache, over tables that may change in between, a
  -- tenant is answered only with the address, the key and the name of a model that one of the calls,
  -- this one or one by the same tenant for the same id that is less than five minutes old, read from
  -- its table, as the one that the table has first for it: its own or a global one, with the id by
  -- the table's collation, not deleted, of the type that is asked for, and with status 1.
  pub resolve_for_valid :
      (decrypt : Text → Option Text) (qs : List (Ask F)) (q : Ask F) (r : Resolved)
      → (ask decrypt q (ask_all decrypt qs [])).0 ≡ ok r
      → (p : Ask F) × (m : ModelDo F) × ServedBy decrypt (q ∷ qs) q r p m
  unfolding resolve_for
  resolve_for_valid decrypt qs q r h =
      resolved_ok decrypt (q ∷ qs) q
        (load q.answers q.now q.tid q.model_id q.table (ask_all decrypt qs [])).0 r
        (load-LoadsRecent (q ∷ qs) q (ask_all decrypt qs []) (head refl) (
          ask_all-IsSoundCache decrypt (q ∷ qs) qs [] (λ p m. tail m)
            (λ tid model_id e found. unfold lookup in absurd (ground (arith, found))))).0
        h

  -- Where nothing valid is cached and the database answers, a tenant's own model of an id is taken
  -- before a global one, and for five minutes from then on it is taken again, whatever has become of
  -- the table, and whether or not the database answers.
  pub load_outcome :
      (now n : ℕ) (model_id : Text) (table : Models F) (cache : Assoc (CacheEntry F))
      (m : ModelDo F)
      → fresh now (lookup (cache_key (suc n) model_id) cache) ≡ none
      → first_where table.same_id (is_of (suc n)) model_id table.rows ≡ some m
      → let (a, cache') = load true now (suc n) model_id table cache in
        (a ≡ ok m)
        × ((answers : Bool) (later : ℕ) (table' : Models F)
            → ltb later (now + cache_ttl) ≡ true
            → load answers later (suc n) model_id table' cache' ≡ (ok m, cache'))
  unfolding load load_uncached loaded select_model or_else
  load_outcome now n model_id table cache m absent own = rw (absent, own) (refl, again)
    where
      key : Text
      key = cache_key (suc n) model_id

      entry : CacheEntry F
      entry = record { model = m; expire = now + cache_ttl }

      hit :
          (later : ℕ)
          → ltb later (now + cache_ttl) ≡ true
          → fresh later (lookup key (put key entry cache)) ≡ some m
      hit later soon =
          rw (lookup-put key key entry cache, text_eq_refl key) (unfold fresh in rw soon refl)

      again :
          (answers : Bool) (later : ℕ) (table' : Models F)
          → ltb later (now + cache_ttl) ≡ true
          → load_uncached answers later
              (suc n)
              model_id
              (fresh later (lookup key (put key entry cache)))
              table'
              (put key entry cache)
            ≡ (ok m, put key entry cache)
      again answers later table' soon = rw (hit later soon) refl

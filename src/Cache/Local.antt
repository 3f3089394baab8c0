-- ===== src/Cache/Local.antt =====
-- A store in memory that never fails, with the newest entry of a key first: a value of the Redis
-- parameter, for tests.
use Prim.Native.Char.{code}
use Prim.Native.String.{String}
use mono_sso.Prelude.{
  ◌≡◌, ◌≢◌, refl, sym, ◌∙◌, ap, subst, inl, inr, Bool, true, false, ◌&&◌, ◌||◌, Option, none, some,
  List, [], ◌∷◌, map, select, length, contains, contains-In, contains_elim, In, In-select,
  select-In, is_none, arith, Bool-cases, eq_iff, eq_refl, ◌==◌, nat_eq, string_eq, if◌then◌else◌,
}
use mono_sso.Cache.Redis.{Redis, RedisLaws, Reply, found, absent}

unfoldable pub lookup : String → List (String × String) → Option String
lookup k [] = none
lookup k ((j, v) ∷ s) = if j == k then some v else lookup k s

unfoldable pub without : List String → List (String × String) → List (String × String)
without ks [] = []
without ks ((j, v) ∷ s) = if contains ks j then without ks s else (j, v) ∷ without ks s

-- The globs that the program sends: `*` is any text, and all else stands for itself.
unfoldable pub glob : String → String → Bool
glob String.[] String.[] = true
glob String.[] (String.◌∷◌ c s) = false
glob (String.◌∷◌ p ps) String.[] = code p == b'*' && glob ps String.[]
glob (String.◌∷◌ p ps) (String.◌∷◌ c s) =
    let skip = glob ps (String.◌∷◌ c s) in
    let more = glob (String.◌∷◌ p ps) s in
    let same = glob ps s in if code p == b'*' then skip || more else code p == code c && same

unfoldable pub reply : Option String → Reply String
reply none = absent
reply (some v) = found v

abbrev pub keys_of : List (String × String) → List String
keys_of = map (λ e. e.0)

abbrev pub local_redis : Redis
local_redis = record {
  Store = List (String × String);
  Value = String;
  of_text = λ t. t;
  to_text = λ v. v;
  get = λ s k. reply (lookup k s);
  take = λ s k. (reply (lookup k s), without (k ∷ []) s);
  exec_fails = λ s k. is_none (lookup k s);
  exists = λ s k. some (if is_none (lookup k s) then 0 else 1);
  set = λ s k v d. (true, (k, v) ∷ s);
  keys = λ s p. some (select (glob p) (keys_of s));
  del = λ s ks. (some (length (select (contains ks) (keys_of s))), without ks s);
}

pub lookup-without_hit :
    (ks : List String) (k : String) (s : List (String × String))
    → contains ks k ≡ true
    → lookup k (without ks s) ≡ none
unfolding lookup without
lookup-without_hit ks k [] h = refl
lookup-without_hit ks k ((j, v) ∷ s) h = elim (Bool-cases (contains ks j)) [
  | inl t ↦ rw t (lookup-without_hit ks k s h)
  | inr f ↦ elim (Bool-cases (j == k)) [
    | inl e ↦ absurd (absurd_bool (sym h ∙ ap (contains ks) (sym ((eq_iff j k).0 e)) ∙ f))
    | inr ne ↦ rw (f, ne) (lookup-without_hit ks k s h)
  ]
]
  where
    absurd_bool : true ≡ false → ⊥
    absurd_bool e = cc

pub lookup-without_miss :
    (ks : List String) (k : String) (s : List (String × String))
    → contains ks k ≡ false
    → lookup k (without ks s) ≡ lookup k s
unfolding lookup without
lookup-without_miss ks k [] h = refl
lookup-without_miss ks k ((j, v) ∷ s) h = elim (Bool-cases (j == k)) [
  | inl e ↦ rw (ap (contains ks) ((eq_iff j k).0 e) ∙ h, e)
  | inr ne ↦ elim (Bool-cases (contains ks j)) [
    | inl t ↦ rw (t, ne) (lookup-without_miss ks k s h)
    | inr f ↦ rw (f, ne) (lookup-without_miss ks k s h)
  ]
]

pub lookup-without-none :
    (ks : List String) (k : String) (s : List (String × String))
    → lookup k s ≡ none
    → lookup k (without ks s) ≡ none
lookup-without-none ks k s h = elim (Bool-cases (contains ks k)) [
  | inl t ↦ lookup-without_hit ks k s t
  | inr f ↦ lookup-without_miss ks k s f ∙ h
]

pub keys_of-In :
    (k v : String) (s : List (String × String)) → lookup k s ≡ some v → In k (keys_of s)
unfolding lookup
keys_of-In k v [] h = cc
keys_of-In k v ((j, w) ∷ s) h = elim (Bool-cases (j == k)) [
  | inl e ↦ inl (sym ((eq_iff j k).0 e))
  | inr ne ↦ inr (keys_of-In k v s (rw ne at h))
]

pub not_contains : (ks : List String) (k : String) → (In k ks → ⊥) → contains ks k ≡ false
not_contains ks k h = elim (Bool-cases (contains ks k)) [
  | inl t ↦ absurd (h (contains_elim k ks t))
  | inr f ↦ f
]

pub single_miss : (j k : String) → j ≢ k → contains (k ∷ []) j ≡ false
single_miss j k ne = ground (arith, eq_iff k j)

pub single_hit : (k : String) → contains (k ∷ []) k ≡ true
single_hit k = ground (arith, eq_iff k k)

pub found-lookup : (o : Option String) (v : String) → reply o ≡ found v → o ≡ some v
unfolding reply
found-lookup o v h = ground arith

pub absent-lookup : (o : Option String) → reply o ≡ absent → o ≡ none
unfolding reply
absent-lookup o h = ground arith

pub lookup_new : (k v : String) (s : List (String × String)) → lookup k ((k, v) ∷ s) ≡ some v
unfolding lookup
lookup_new k v s = rw (eq_refl k)

pub lookup_old :
    (k j v : String) (s : List (String × String)) → j ≢ k → lookup j ((k, v) ∷ s) ≡ lookup j s
unfolding lookup
lookup_old k j v s ne = ground (arith, eq_iff k j)

pub some-eq : {xs ys : List String} → some xs ≡ some ys → xs ≡ ys
some-eq h = cc

-- The store in memory has the laws.
abbrev pub local_laws : RedisLaws local_redis
local_laws = record {
  holds = λ s k. lookup k s;
  matches = glob;
  text_of_text = λ t. refl;
  get_found = λ s k v h. found-lookup (lookup k s) v h;
  get_absent = λ s k h. absent-lookup (lookup k s) h;
  take_found =
      λ s k v h. (found-lookup (lookup k s) v h, lookup-without_hit (k ∷ []) k s (single_hit k));
  take_none = λ s k h. lookup-without-none (k ∷ []) k s h;
  take_others = λ s k j ne. lookup-without_miss (k ∷ []) j s (single_miss j k ne);
  exec_absent = λ s k h. ap is_none h;
  set_done = λ s k v d h. lookup_new k v s;
  set_others = λ s k v d j ne. lookup_old k j v s ne;
  keys_sound =
      λ s p ks k h m. (select-In (glob p) k (keys_of s) (subst (In k) (sym (some-eq h)) m)).1;
  keys_complete = λ s p ks k v h m held.
      subst (In k) (some-eq h) (In-select (glob p) k (keys_of s) (keys_of-In k v s held) m);
  del_done = λ s ks n k h m. lookup-without_hit ks k s (contains-In k ks m);
  del_none = λ s ks k h. lookup-without-none ks k s h;
  del_others = λ s ks k h. lookup-without_miss ks k s (not_contains ks k h);
}

-- ===== src/Cache/Redis.antt =====
-- go-redis and the Redis server as a parameter: the commands that the program sends, and what their
-- documentation says of the keys that the server holds.
use mono_sso.Prelude.{
  ℕ, String, ◌≡◌, ◌≢◌, refl, ◌⊎◌, inl, inr, Bool, true, Option, none, some, List, In,
}
use mono_sso.Prelude.Int.{ℤ}

-- The reply to GET: the value, `redis.Nil`, or another error.
pub data Reply (A : Type 0) : Type 0 where
  found : A → Reply A
  absent failed : Reply A

-- The three replies to a GET.
pub Reply-cases :
    {A : Type 0} (r : Reply A) → ((a : A) × (r ≡ found a)) ⊎ ((r ≡ absent) ⊎ (r ≡ failed))
Reply-cases (found a) = inl (a, refl)
Reply-cases absent = inr (inl refl)
Reply-cases failed = inr (inr refl)

-- One command is one instant; a key with an expiry may leave the store between two of them.
pub record Redis : Type 1 where
  pub Store : Type 0
  pub Value : Type 0
  pub of_text : String → Value
  pub to_text : Value → String
  pub get : Store → String → Reply Value
  -- `TxPipeline` with GET and DEL of one key, the reply to GET and the store after `Exec`.
  pub take : Store → String → Reply Value × Store
  -- Whether that `Exec` returns an error.
  pub exec_fails : Store → String → Bool
  pub exists : Store → String → Option ℕ
  -- SET with an expiry in seconds; whether it succeeds.
  pub set : Store → String → Value → ℤ → Bool × Store
  pub keys : Store → String → Option (List String)
  pub del : Store → List String → Option ℕ × Store

pub record RedisLaws (r : Redis) : Type 0 where
  -- What the server holds at a key, and which keys a glob pattern matches.
  pub holds : r.Store → String → Option r.Value
  pub matches : String → String → Bool
  pub text_of_text : (t : String) → r.to_text (r.of_text t) ≡ t
  pub get_found :
      (s : r.Store) (k : String) (v : r.Value) → r.get s k ≡ found v → holds s k ≡ some v
  pub get_absent : (s : r.Store) (k : String) → r.get s k ≡ absent → holds s k ≡ none
  pub take_found :
      (s : r.Store) (k : String) (v : r.Value)
      → (r.take s k).0 ≡ found v
      → (holds s k ≡ some v) × (holds (r.take s k).1 k ≡ none)
  pub take_none : (s : r.Store) (k : String) → holds s k ≡ none → holds (r.take s k).1 k ≡ none
  pub take_others : (s : r.Store) (k j : String) → j ≢ k → holds (r.take s k).1 j ≡ holds s j
  -- "Exec returns the error of the first failed command", and a GET with no value is one.
  pub exec_absent : (s : r.Store) (k : String) → holds s k ≡ none → r.exec_fails s k ≡ true
  pub set_done :
      (s : r.Store) (k : String) (v : r.Value) (d : ℤ)
      → (r.set s k v d).0 ≡ true
      → holds (r.set s k v d).1 k ≡ some v
  pub set_others :
      (s : r.Store) (k : String) (v : r.Value) (d : ℤ) (j : String)
      → j ≢ k
      → holds (r.set s k v d).1 j ≡ holds s j
  pub keys_sound :
      (s : r.Store) (p : String) (ks : List String) (k : String)
      → r.keys s p ≡ some ks
      → In k ks
      → matches p k ≡ true
  pub keys_complete :
      (s : r.Store) (p : String) (ks : List String) (k : String) (v : r.Value)
      → r.keys s p ≡ some ks
      → matches p k ≡ true
      → holds s k ≡ some v
      → In k ks
  pub del_done :
      (s : r.Store) (ks : List String) (n : ℕ) (k : String)
      → (r.del s ks).0 ≡ some n
      → In k ks
      → holds (r.del s ks).1 k ≡ none
  pub del_none :
      (s : r.Store) (ks : List String) (k : String)
      → holds s k ≡ none
      → holds (r.del s ks).1 k ≡ none
  pub del_others :
      (s : r.Store) (ks : List String) (k : String)
      → (In k ks → ⊥)
      → holds (r.del s ks).1 k ≡ holds s k

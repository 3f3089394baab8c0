-- ===== src/Cache/Tests.antt =====
-- The purges over a store in memory.
use Prim.Native.String.{String}
use mono_sso.Prelude.{◌≡◌, ◌≢◌, refl, false, some, List, [], ◌∷◌}
use mono_sso.Cache.Local.{lookup, without, glob, local_redis, local_laws}
use mono_sso.Cache.Ids.{create_id}
use mono_sso.Cache.Purge.{round, purge_client_cache, purge_subject_cache, to_int32}
use mono_sso.Cache.Purge.Laws.{Cleared, purge_subject_cache_clears, purge_client_cache_stops}

abbrev entries : List (String × String)
entries =
    ("sso:authc:acme:web:c1", "request")
    ∷ ("sso:tkn:web:ann:h1", "s1")
    ∷ ("sso:sess:s1:ann", "session")
    ∷ ("sso:sess:s1:bob", "session")
    ∷ ("sso:act:s1:h2", "ann")
    ∷ []

purge_web :
    (purge_client_cache local_redis "sso" entries "web").store
    ≡ ("sso:tkn:web:ann:h1", "s1")
      ∷ ("sso:sess:s1:ann", "session")
      ∷ ("sso:sess:s1:bob", "session")
      ∷ ("sso:act:s1:h2", "ann")
      ∷ []
unfolding purge_client_cache round create_id to_int32 glob without
purge_web = refl

purges_ann : (purge_subject_cache local_redis "sso" entries "ann" "").is_error ≡ false
unfolding purge_subject_cache create_id glob without round
purges_ann = refl

purge_subject_cache_clears_example :
    let q = purge_subject_cache local_redis "sso" entries "ann" "s1" in
    Cleared local_redis local_laws q.store "sso:sess:s1:ann*"
    × Cleared local_redis local_laws q.store "sso:tkn:*:ann:*"
    × (◌≢◌ {A = String} "s1" "*" → Cleared local_redis local_laws q.store "sso:act:s1:*")
unfolding purge_subject_cache create_id glob without round
purge_subject_cache_clears_example =
    purge_subject_cache_clears local_redis local_laws "sso" entries "ann" "s1" "sso:sess:s1:ann*"
      "sso:tkn:*:ann:*" "sso:act:s1:*" refl refl refl refl

purge_client_cache_stops_example :
    lookup "sso:tkn:web:ann:h1" (purge_client_cache local_redis "sso" entries "web").store
    ≡ some "s1"
unfolding create_id glob lookup
purge_client_cache_stops_example =
    purge_client_cache_stops local_redis local_laws "sso" entries "web" "sso:authc:*:web:*"
      "sso:authc:acme:web:c1" "sso:tkn:web:ann:h1" "request" refl refl refl refl

-- ===== src/TokenServer/Tests.antt =====
-- The access theorems at the secret "k" and at wrong ones.
use golang_learning.Prelude.{GoString, List, [], ◌∷◌, ◌++◌, Option, some, ◌≡◌, ◌≢◌, ◌↔◌}
use golang_learning.TokenServer.{bearer_prefix, done, stream_auth_interceptor}
use golang_learning.TokenServer.Access.{stream_auth_interceptor_iff}

abbrev secret : GoString
secret = b'k' ∷ []

stream_auth_interceptor_iff_example :
    (stream_auth_interceptor secret (some ((bearer_prefix ++ secret) ∷ [])) done ≡ done) ↔ (
      (secret ≢ [])
      × ((rest : List GoString) × (◌≡◌ {A = Option (List GoString)}
            (some ((bearer_prefix ++ secret) ∷ []))
            (some ((bearer_prefix ++ secret) ∷ rest)))))
stream_auth_interceptor_iff_example =
    stream_auth_interceptor_iff secret (some ((bearer_prefix ++ secret) ∷ []))

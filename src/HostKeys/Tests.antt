-- ===== src/HostKeys/Tests.antt =====
-- The theorem on first use at a concrete host, and the way to another key.
use infram.Prelude.{◌≡◌, refl, true, none, some, [], ◌∷◌, ◌&&◌, ◌==◌, err, find_one}
use infram.HostKeys.{Presented, first_seen, verify_host_key, accept_host_key}
use infram.HostKeys.Trust.{trusted, verify_all, verify_host_key-first_use}

abbrev genuine : Presented
genuine = record { host = 1; port = none; key_type = 5; fingerprint = 100 }

abbrev forged : Presented
forged = record genuine { port = some 22; fingerprint = 666 }

verify_host_key-first_use_example :
    ((verify_host_key 1 1000 genuine []).1 ≡ true)
    × ((verify_host_key 2 2000 forged
          (verify_all ((3, 1500, forged) ∷ []) (verify_host_key 1 1000 genuine []).0)).1
        ≡ (genuine.fingerprint == forged.fingerprint && genuine.key_type == forged.key_type))
unfolding trusted find_one
verify_host_key-first_use_example =
    verify_host_key-first_use 1 1000 2 2000 genuine forged ((3, 1500, forged) ∷ []) [] refl refl
      refl

-- An administrator accepts the key that is waiting; without one there is nothing to accept.
accepts :
    (accept_host_key 1 3000 (first_seen 1 1000 genuine ∷ []) ≡ err 409)
    × (accept_host_key 2 3000 (first_seen 1 1000 genuine ∷ []) ≡ err 404)
unfolding accept_host_key find_one
accepts = (refl, refl)

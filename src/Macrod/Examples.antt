-- ===== src/Macrod/Examples.antt =====
-- Tests of the start and the end of the macro daemon.
use hawck.Prelude.{◌≡◌, refl, true, false, [], ◌∷◌, none, codes}
use hawck.Effect.{ok, err, socket_error, Action}
use hawck.Daemon.{kill_pretender, pidexe}
use hawck.Macrod.{no_fork, long_option, unknown, help, starts, exits, parse, run_main}
use hawck.Macrod.Exit.{run_main-made}
use hawck.Samples.{Host, processes, host}

abbrev made : Action Host Unit
made w = (ok tt, w)

abbrev loses_socket : Action Host Unit
loses_socket w = (err socket_error, w)

run_main-made_example :
    ((run_main processes 0 (codes "/run/macrod.pid") made loses_socket host).1.pid ≡ none)
    × ((run_main processes 0 (codes "/run/macrod.pid") made loses_socket host).0 ≡ err socket_error)
unfolding kill_pretender pidexe
run_main-made_example =
    run_main-made processes 0 (codes "/run/macrod.pid") made loses_socket host
      (kill_pretender processes (codes "/run/macrod.pid") host).1 refl refl refl refl

stays : parse (unknown ∷ no_fork ∷ []) false ≡ starts true
unfolding parse
stays = refl

shows_version : parse (no_fork ∷ long_option (codes "version") ∷ help ∷ []) false ≡ exits
unfolding parse
shows_version = refl

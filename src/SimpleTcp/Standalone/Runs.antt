-- ===== src/SimpleTcp/Standalone/Runs.antt =====
-- A run of simpletcp/simpletcp-main.c on a small machine.
use shadow_tor_eavesdropping.Base.{
  ◌==◌, if◌then◌else◌, none, some, [], ◌∷◌, codes, refl, arith, inr,
}
use shadow_tor_eavesdropping.Sys.{Kernel, Call, epollin}
use shadow_tor_eavesdropping.Resolve.{last_addr}
use shadow_tor_eavesdropping.Samples.{lower_case}
use shadow_tor_eavesdropping.SimpleTcp.Standalone.{simpletcp_main}
use shadow_tor_eavesdropping.SimpleTcp.Standalone.Turns.{awaited, IsLively}
use shadow_tor_eavesdropping.SimpleTcp.Standalone.Start.{sets, HasResources}
use shadow_tor_eavesdropping.SimpleTcp.Standalone.Main.{Completes, simpletcp_main-Completes}
use shadow_tor_eavesdropping.SimpleTcp.Examples.{
  times, willing, client, decimal_texts, local_arguments, local_asked, web-IsText,
}

-- The epoll sets are on 3 and 4, and every socket is on 7 and is ready for what it waits for.
abbrev small_machine : Kernel
small_machine = record willing {
  returns = λ t c. elim c [ Call.epoll_create n ↦ if sets t == 0 then 3 else 4 | _ ↦ 7 ];
  polls = λ t c. elim c [
    | Call.epoll_wait ed n ↦ if n == 10 then some (awaited ed t) else some ((ed, epollin) ∷ [])
    | _ ↦ none
  ];
  addresses = λ t host. 16777343 ∷ [];
}

small_machine-IsLively : IsLively small_machine
small_machine-IsLively = record {
  makes = λ t. refl;
  connects = λ t sd ip port. refl;
  registers = λ t ed sd events. refl;
  wakes = λ t ed. ((ed, epollin), [], refl);
  reports = λ t ed. refl;
}

small_machine-HasResources : HasResources small_machine
unfolding last_addr
small_machine-HasResources = record {
  allocates = λ t n. (_, refl);
  resolves = λ t host. (refl, 16777343, refl, omega arith);
  own_set = 3;
  main_set = 4;
  own_real = omega arith;
  own_made = omega arith;
  main_made = omega arith;
  sets_differ = omega arith;
  first_set = λ t none_yet. simp none_yet;
  second_set = λ t one. simp one;
}

simpletcp_main-Completes_example :
    Completes times lower_case small_machine small_machine-HasResources small_machine-IsLively
      decimal_texts 2 100 110
      (codes "any:80")
      (codes "localhost:9050")
      (codes "web")
      (λ t. (([], refl, web-IsText, omega arith), refl))
      (codes "9050", refl, refl)
      (codes "80", refl, refl)
      (simpletcp_main times lower_case decimal_texts 24 local_arguments small_machine client [])
simpletcp_main-Completes_example =
    simpletcp_main-Completes times lower_case small_machine small_machine-HasResources
      small_machine-IsLively decimal_texts 2 100 110 (codes "any:80") (codes "localhost:9050")
      (codes "web") (λ t. (([], refl, web-IsText, omega arith), refl)) (codes "9050", refl, refl)
      (codes "80", refl, refl) 24 local_arguments client local_asked
      ((λ t sd. refl), (λ t sd. ([], refl))) (inr (omega arith)) (omega arith)

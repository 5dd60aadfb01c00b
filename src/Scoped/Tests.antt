-- ===== src/Scoped/Tests.antt =====
-- A guard that is moved twice ends its span once.
use slick_perfmon.Prelude.{◌+◌, ◌≡◌, refl, List, [], ◌∷◌}
use slick_perfmon.Scoped.{
  Action, construct, move_construct, move_assign, destroy, perform, perform_all, assign, began,
  ended, fresh,
}
use slick_perfmon.Scoped.Balance.{begins, ends, cancels, armed_guards, guards_balance}

abbrev travels : List Action
travels =
    construct 7 1
    ∷ construct 8 1
    ∷ move_construct 0
    ∷ move_assign 1 2
    ∷ destroy 2
    ∷ destroy 1
    ∷ destroy 0
    ∷ []

travels_run :
    (perform_all travels fresh).stamps ≡ ended 7 1 ∷ ended 8 1 ∷ began 8 1 ∷ began 7 1 ∷ []
unfolding perform_all perform assign
travels_run = refl

guards_balance_example :
    begins 7 1 (perform_all travels fresh).stamps
    ≡ ends 7 1 (perform_all travels fresh).stamps
      + cancels 7 1 (perform_all travels fresh).cancelled
      + armed_guards 7 1 (perform_all travels fresh).objects
guards_balance_example = guards_balance 7 1 travels

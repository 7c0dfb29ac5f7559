-- ===== src/Tests/Desktops.antt =====
-- service.rs at fixed inputs.
use tuskd.Prelude.{◌≡◌, refl, none, some, List, [], ◌∷◌, arith}
use tuskd.Text.{Text, codes}
use tuskd.Desktop.{DesktopState, set_active, set_all, without, IsTidy, set_all-IsTidy}

abbrev fresh_state : DesktopState
fresh_state = record { active_vault = none; recents = [] }

abbrev opened : List Text
opened = codes "/a" ∷ codes "/b" ∷ codes "/a" ∷ codes "/a" ∷ codes "/c" ∷ []

last_opened :
    set_all opened fresh_state
    ≡ record { active_vault = some (codes "/c"); recents = codes "/a" ∷ codes "/b" ∷ [] }
unfolding set_all set_active without
last_opened = refl

set_all-IsTidy_example : IsTidy (set_all opened fresh_state)
set_all-IsTidy_example =
    set_all-IsTidy opened fresh_state
      (record { capped = omega arith; distinct = tt; inactive = tt })

-- ===== src/Core/Keyboard/Examples.antt =====
-- A callback that is set, replaced and removed.
use hohnor.Prelude.{ℕ, ◌+◌, ◌≡◌, refl, Bool, false, List, [], ◌∷◌, Option, none, some}
use hohnor.Core.Keyboard.{Terminal, Keyboard, set_input_interactive, handle_keyboard, listen}

abbrev raw : ℕ → ℕ
raw n = n + 100

abbrev cooked : Terminal
cooked = record { attributes = 5; saved = 0; interactive = false; reset_at_exit = 0 }

not_a_terminal :
    handle_keyboard raw false false (some 1) (record { handler = none; terminal = cooked }) ≡ none
unfolding handle_keyboard listen set_input_interactive
not_a_terminal = refl

abbrev calls : List (Bool × Option ℕ)
calls = (false, some 1) ∷ (false, some 2) ∷ (false, none) ∷ (false, some 3) ∷ (false, none) ∷ []

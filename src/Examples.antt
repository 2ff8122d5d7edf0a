-- ===== src/Examples.antt =====
-- examples/: programs that hold one bus and print. Their messages are a parameter here.
pub mod Safe
pub mod Demo
pub mod Trigger
use gsusb_canfd.Prelude.{ℕ, List, ◌∷◌, ◌++◌}
use gsusb_canfd.Effects.{Action}
use gsusb_canfd.Errors.{ok}
use gsusb_canfd.Device.State.{Bus}

-- The bus object of `main`, and what has been printed, newest first.
pub record Running (N : Type 0) : Type 0 where
  pub bus : Bus
  pub printed : List N

-- How a program ends: with an exit code, by std::terminate, or not within the fuel of the model.
pub data Ending : Type 0 where
  code : ℕ → Ending
  terminated goes_on : Ending

module _ {N : Type 0} where
  -- One message, and several, the newest of them first.
  abbrev pub print : N → Action (Running N) (Unit {0})
  print message s = (ok tt, record s { printed = message ∷ s.printed })

  abbrev pub print_all : List N → Action (Running N) (Unit {0})
  print_all messages s = (ok tt, record s { printed = messages ++ s.printed })

  abbrev pub on_bus : {A : Type 0} → Action Bus A → Action (Running N) A
  on_bus m s = let (r, b) = m s.bus in (r, record s { bus = b })

-- ===== src/Examples/Safe.antt =====
-- Ownership of the device handle over the parts of an example.
use gsusb_canfd.Errors.{Result-cases}
use gsusb_canfd.Prelude.{ℕ, List, inl, inr}
use gsusb_canfd.Effects.{Action, ◌>>=◌, ◌>>◌, pure}
use gsusb_canfd.Device.State.{Bus}
use gsusb_canfd.Device.Lifecycle.{IsSound, Keeps}
use gsusb_canfd.Examples.{Running, print, print_all, on_bus}

module _ {N : Type 0} (base : ℕ → ℕ) where
  -- A part of a program that keeps its bus sound however it ends.
  pub record IsSafe {A : Type 0} (m : Action (Running N) A) : Type 0 where
    pub keeps : (s : Running N) → IsSound base s.bus → IsSound base (m s).1.bus

  pub pure-IsSafe : {A : Type 0} (x : A) → IsSafe (pure x)
  pure-IsSafe x = record { keeps = λ s h. h }

  pub print-IsSafe : (message : N) → IsSafe (print message)
  print-IsSafe message = record { keeps = λ s h. h }

  pub print_all-IsSafe : (messages : List N) → IsSafe (print_all messages)
  print_all-IsSafe messages = record { keeps = λ s h. h }

  pub on_bus-IsSafe : {A : Type 0} (m : Action Bus A) → Keeps (IsSound base) m → IsSafe (on_bus m)
  on_bus-IsSafe m km = record { keeps = λ s h. km.keeps s.bus h }

  pub bind-IsSafe :
      {A B : Type 0} (m : Action (Running N) A) (f : A → Action (Running N) B)
      → IsSafe m
      → ((a : A) → IsSafe (f a))
      → IsSafe (m >>= f)
  bind-IsSafe m f km kf = record {
    keeps = λ s h. elim (Result-cases (m s).0) [
      | inl (a, e) ↦ rw (e, ◌>>=◌) ((kf a).keeps (m s).1 (km.keeps s h))
      | inr (x, e) ↦ rw (e, ◌>>=◌) (km.keeps s h)
    ];
  }

  pub then-IsSafe :
      {A B : Type 0} (m : Action (Running N) A) (k : Action (Running N) B)
      → IsSafe m
      → IsSafe k
      → IsSafe (m >> k)
  then-IsSafe m k km kk = bind-IsSafe m (λ _. k) km (λ _. kk)

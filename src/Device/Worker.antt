-- ===== src/Device/Worker.antt =====
-- CanFdBus::start and stop, and the receive thread. The thread stands at one point of its loop; a
-- call of `receive` is one step of it. The object is used by one other thread, the client, which
-- may stand inside `stop`, waiting for the thread to end.
pub mod Machine
pub mod Join
pub mod Handles
use gsusb_canfd.Prelude.{ℕ, Bool, true, false, ◌||◌, Option, none, some, List, [], ◌∷◌}
use gsusb_canfd.Prelude.Int.{pos}
use gsusb_canfd.Errors.{CanFdError, Result, ok, err, argument_error, Message}
use gsusb_canfd.Floats.{Double}
use gsusb_canfd.Frame.{CanFrame}
use gsusb_canfd.Usb.{Libusb}
use gsusb_canfd.Device.State.{Impl, Bus}
use gsusb_canfd.Device.Traffic.{
  Clock, Received, received, timed_out, out_of_fuel, started_transport, receive,
}

-- Where the thread stands. `no_thread` is a std::thread that is not joinable.
pub data Worker (D : Type 0) : Type 0 where
  no_thread testing receiving ended : Worker D
  delivering : CanFrame D → Worker D

-- Where the client stands: outside `stop`, or in it behind the exchange of `running`, with the
-- value that was there.
pub data Client : Type 0 where
  outside : Client
  joining : (was_running : Bool) → Client

pub record Shared (D : Type 0) : Type 0 where
  pub bus : Bus
  pub running : Bool
  pub worker : Worker D
  -- Whether a callback is stored, and the frames that it was called with, newest first.
  pub has_callback : Bool
  pub delivered : List (CanFrame D)
  pub client : Client
  -- Assigning to a std::thread that is joinable ends the program.
  pub terminated : Bool

-- CanFdBus::CanFdBus
abbrev pub idle : {D : Type 0} → Bus → Shared D
idle b = record {
  bus = b;
  running = false;
  worker = no_thread;
  has_callback = false;
  delivered = [];
  client = outside;
  terminated = false;
}

-- std::thread::joinable
abbrev pub is_joinable : {D : Type 0} → Worker D → Bool
is_joinable no_thread = false
is_joinable testing = true
is_joinable receiving = true
is_joinable ended = true
is_joinable (delivering frame) = true

-- Whether the thread's function has returned, or there is none.
abbrev pub has_ended_thread : {D : Type 0} → Worker D → Bool
has_ended_thread no_thread = true
has_ended_thread ended = true
has_ended_thread testing = false
has_ended_thread receiving = false
has_ended_thread (delivering frame) = false

module _ {D : Type 0} where
  -- impl_->worker = std::thread(...)
  abbrev pub launch : Shared D → Shared D
  launch s = record s {
    running = true;
    has_callback = true;
    worker = testing;
    terminated = s.terminated || is_joinable s.worker;
  }

  -- CanFdBus::start, behind the first test.
  abbrev pub start_started : Shared D → Result (Unit {0}) × Shared D
  start_started s = elim s.running [
    | true ↦ (err (argument_error Message.already_running), s)
    | false ↦ (ok tt, launch s)
  ]

  unfoldable pub start : Shared D → Result (Unit {0}) × Shared D
  start s = elim (started_transport s.bus.impl) [
    | none ↦ (err (argument_error Message.not_started), s)
    | some t ↦ start_started s
  ]

  -- CanFdBus::stop up to the join.
  unfoldable pub begin_stop : Shared D → Shared D
  begin_stop s = record s { running = false; client = joining s.running }

  -- The rest of stop, once the thread has ended or there is none. The callback is dropped only
  -- where `running` was set.
  abbrev pub joined : (was_running : Bool) → Shared D → Shared D
  joined true s = record s { worker = no_thread; has_callback = false; client = outside }
  joined false s = record s { worker = no_thread; client = outside }

module _ {D : Type 0} (F : Double D) (usb : Libusb) (clock : Clock D) (fuel : ℕ) where
  -- What a receive call of the thread leads to.
  abbrev pub next_of : Result (Received D) → Worker D
  next_of (ok (received frame)) = delivering frame
  next_of (ok timed_out) = testing
  next_of (ok out_of_fuel) = receiving
  next_of (err e) = ended

  -- One step of the thread.
  unfoldable pub advance : Worker D → Shared D → Shared D
  advance no_thread s = s
  advance ended s = s
  advance testing s = record s { worker = elim s.running [ true ↦ receiving | false ↦ ended ] }
  advance receiving s =
      let (r, b) = receive F usb clock (pos 100) fuel s.bus in
      record s { bus = b; worker = next_of r }
  advance (delivering frame) s = record s {
    worker = testing;
    delivered = elim s.has_callback [ true ↦ frame ∷ s.delivered | false ↦ s.delivered ];
  }

  abbrev pub step_worker : Shared D → Shared D
  step_worker s = advance s.worker s

  -- CanFdBus::stop as a whole: the thread is given three steps to end, then joined.
  unfoldable pub stop : Shared D → Shared D
  unfolding begin_stop
  stop s =
      let told = begin_stop s in joined s.running (step_worker (step_worker (step_worker told)))

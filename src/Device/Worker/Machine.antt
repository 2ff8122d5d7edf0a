-- ===== src/Device/Worker/Machine.antt =====
-- The client and the thread in any order, and what holds throughout.
use gsusb_canfd.Prelude.{ℕ, ◌≡◌, refl, Bool, true, false, arith}
use gsusb_canfd.Floats.{Double}
use gsusb_canfd.Usb.{Libusb}
use gsusb_canfd.Device.State.{Bus}
use gsusb_canfd.Device.Traffic.{Clock}
use gsusb_canfd.Device.Worker.{
  Worker, no_thread, testing, receiving, delivering, ended, outside, joining, Shared, idle,
  has_ended_thread, start, begin_stop, joined, advance, step_worker,
}

module _ {D : Type 0} (F : Double D) (usb : Libusb) (clock : Clock D) (fuel : ℕ) where
  -- One step of the client or of the thread. `calls` stands for any call of the client that works
  -- on the bus alone, with whatever state it leaves.
  pub data Step : Shared D → Shared D → Type 0 where
    starts : (s : Shared D) → s.client ≡ outside → Step s (start s).1
    stops : (s : Shared D) → s.client ≡ outside → Step s (begin_stop s)
    joins :
        (s : Shared D) (was : Bool)
        → s.client ≡ joining was
        → has_ended_thread s.worker ≡ true
        → Step s (joined was s)
    calls : (s : Shared D) (b : Bus) → s.client ≡ outside → Step s (record s { bus = b })
    works : (s : Shared D) → Step s (step_worker F usb clock fuel s)

  pub data Reachable (b : Bus) : Shared D → Type 0 where
    here : Reachable b (idle b)
    after : {s t : Shared D} → Reachable b s → Step s t → Reachable b t

  -- Outside `stop`, a thread that is joinable was started and not yet stopped.
  pub record IsOrderly (s : Shared D) : Type 0 where
    pub alive : s.terminated ≡ false
    pub owned : s.client ≡ outside → s.running ≡ false → s.worker ≡ no_thread
    pub silent : s.client ≡ outside → s.running ≡ false → s.has_callback ≡ false
    pub stopping : (was : Bool) → s.client ≡ joining was → s.running ≡ false
    pub idle_stop : s.client ≡ joining false → (s.worker ≡ no_thread) × (s.has_callback ≡ false)

  start-IsOrderly : (s : Shared D) → s.client ≡ outside → IsOrderly s → IsOrderly (start s).1
  unfolding start
  start-IsOrderly s out h = record {
    alive = ground (arith, h.alive, h.owned out);
    owned = ground (arith, h.owned out);
    silent = ground (arith, h.silent out);
    stopping = λ was e. ground (arith, e, out);
    idle_stop = λ e. ground (arith, e, out);
  }

  begin_stop-IsOrderly :
      (s : Shared D) → s.client ≡ outside → IsOrderly s → IsOrderly (begin_stop s)
  unfolding begin_stop
  begin_stop-IsOrderly s out h = record {
    alive = h.alive;
    owned = λ e. ground (arith, e);
    silent = λ e. ground (arith, e);
    stopping = λ was e. refl;
    idle_stop = λ e. ground (arith, e, h.owned out, h.silent out);
  }

  joined-IsOrderly :
      (s : Shared D) (was : Bool) → s.client ≡ joining was → IsOrderly s → IsOrderly (joined was s)
  joined-IsOrderly s true at h = record {
    alive = h.alive;
    owned = λ e f. refl;
    silent = λ e f. refl;
    stopping = λ was e. ground (arith, e);
    idle_stop = λ e. ground (arith, e);
  }
  joined-IsOrderly s false at h = record {
    alive = h.alive;
    owned = λ e f. refl;
    silent = λ e f. (h.idle_stop at).1;
    stopping = λ was e. ground (arith, e);
    idle_stop = λ e. ground (arith, e);
  }

  -- A step of the thread changes nothing that the client's part of the invariant speaks of.
  advance-IsOrderly :
      (w : Worker D) (s : Shared D)
      → s.worker ≡ w
      → IsOrderly s
      → IsOrderly (advance F usb clock fuel w s)
  unfolding advance
  advance-IsOrderly no_thread s at h = h
  advance-IsOrderly ended s at h = h
  advance-IsOrderly testing s at h = record {
    alive = h.alive;
    owned = λ e f. ground (arith, at, h.owned e f);
    silent = h.silent;
    stopping = h.stopping;
    idle_stop = λ e. ground (arith, at, (h.idle_stop e).0);
  }
  advance-IsOrderly receiving s at h = record {
    alive = h.alive;
    owned = λ e f. absurd (ground (arith, at, h.owned e f));
    silent = h.silent;
    stopping = h.stopping;
    idle_stop = λ e. absurd (ground (arith, at, (h.idle_stop e).0));
  }
  advance-IsOrderly (delivering frame) s at h = record {
    alive = h.alive;
    owned = λ e f. absurd (ground (arith, at, h.owned e f));
    silent = h.silent;
    stopping = h.stopping;
    idle_stop = λ e. absurd (ground (arith, at, (h.idle_stop e).0));
  }

  Step-IsOrderly : {s t : Shared D} → Step s t → IsOrderly s → IsOrderly t
  Step-IsOrderly (starts s out) h = start-IsOrderly s out h
  Step-IsOrderly (stops s out) h = begin_stop-IsOrderly s out h
  Step-IsOrderly (joins s was at over) h = joined-IsOrderly s was at h
  Step-IsOrderly (calls s b out) h = record {
    alive = h.alive;
    owned = h.owned;
    silent = h.silent;
    stopping = h.stopping;
    idle_stop = h.idle_stop;
  }
  Step-IsOrderly (works s) h = advance-IsOrderly s.worker s refl h

  -- In every order of the steps of one client and the receive thread: no joinable std::thread is
  -- assigned to, and whenever the client is outside `stop` and `running` is not set, there is no
  -- thread and no callback.
  pub Reachable-IsOrderly : (b : Bus) (s : Shared D) → Reachable b s → IsOrderly s
  Reachable-IsOrderly b _ here = record {
    alive = refl;
    owned = λ e f. refl;
    silent = λ e f. refl;
    stopping = λ was e. ground (arith, e);
    idle_stop = λ e. (refl, refl);
  }
  Reachable-IsOrderly b _ (after {s} path step) = Step-IsOrderly step (Reachable-IsOrderly b s path)

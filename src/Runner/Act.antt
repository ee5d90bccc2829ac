-- ===== src/Runner/Act.antt =====
-- Code that changes the world and returns or raises, keeping what it changed.
use gpu_infra.Prelude.{◌+◌, ◌-◌, String, Bool, Dict, List, Result, ok, err, if◌then◌else◌}
use gpu_infra.Fault.{Fault}
use gpu_infra.Store.Types.{State, Change, Run}
use gpu_infra.Store.Ops.{update_state, read_state}
use gpu_infra.Runner.Types.{Raised, exception, World, Python}

abbrev pub Act : Type 0 → Type 0 → Type 0
Act F A = World F → World F × Result Raised A

module _ {F : Type 0} {A : Type 0} where
  unfoldable pub pure : A → Act F A
  pure a w = (w, ok a)

  unfoldable pub lift : Result Fault A → Act F A
  lift (ok a) w = (w, ok a)
  lift (err e) w = (w, err (exception e))

  -- `await`
  unfoldable pub await : Result Raised A → Act F A
  await r w = (w, r)

  -- `try: act finally: last`
  unfoldable pub finally : (World F → World F) → Act F A → Act F A
  finally last act w = let (w', r) = act w in (last w', r)

  abbrev pub raise_out : (World F → World F) → World F × Result Raised A → World F × Result Raised A
  raise_out last (w, ok a) = (w, ok a)
  raise_out last (w, err e) = (last w, err e)

  -- `try: act except BaseException: last; raise`
  unfoldable pub on_raise : (World F → World F) → Act F A → Act F A
  on_raise last act w = raise_out last (act w)

module _ {F : Type 0} {A B : Type 0} where
  abbrev pub after : World F × Result Raised A → (A → Act F B) → World F × Result Raised B
  after (w, ok a) f = f a w
  after (w, err e) f = (w, err e)

  infixl 5 ◌>>=◌
  unfoldable pub ◌>>=◌ : Act F A → (A → Act F B) → Act F B
  (m >>= f) w = after (m w) f

module _ {F : Type 0} {B : Type 0} where
  infixl 5 ◌>>◌
  abbrev pub ◌>>◌ : Act F (Unit {0}) → Act F B → Act F B
  m >> k = m >>= λ _. k

module _ {F : Type 0} where
  -- `await self._local_slots.acquire()` once it has returned, and `release()`
  unfoldable pub acquire : World F → World F
  acquire w = record w { held = w.held + 1 }

  unfoldable pub release_if : Bool → World F → World F
  release_if local_slot w = if local_slot then record w { held = w.held - 1 } else w

  -- the world after an update that has read the clock
  abbrev pub tick : World F → Result Fault (Dict (Run F) × State) → World F × Result Raised State
  tick w (ok (store, s)) = (record w { store = store; ticks = w.ticks + 1 }, ok s)
  tick w (err e) = (record w { ticks = w.ticks + 1 }, err (exception e))

  -- `self.store.update_state(run_id, event, ...)`
  unfoldable pub update : Python F → String → String → List Change → Act F State
  update python run_id event changes w =
      tick w (update_state w.store run_id (python.clock w.ticks) event changes)

  -- `self.store.read_state(run_id)`
  unfoldable pub current : String → Act F State
  current run_id w = lift (read_state w.store run_id) w

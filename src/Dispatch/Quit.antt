-- ===== src/Dispatch/Quit.antt =====
-- What a handler gives to `quit` is what `run` returns.
use leda.Prelude.{
  ℕ, ◌≡◌, refl, subst, ap, ◌∙◌, Bool, true, false, Option, none, some, List, [], ◌∷◌, ◌++◌, length,
  length-append, drop-append, All, arith,
}
use leda.Lua.{Value, is_nil, Marshal}
use leda.Stats.{release_event, event_event, error_event}
use leda.Event.{EventData, event_new_packed_event, restored_values, restore_event}
use leda.Scheduler.{destroy, status_of, status_after}
use leda.Scheduler.Turn.{status_in, tail}
use Prim.Native.String.{String}
use leda.Dispatch.{
  Callbacks, Active, raised, yielded, ticked, Main, call_if, kernel_error_event, kernel_event_event,
  kernel_release_event, kernel_timer_event, kernel_yield_event, run_active, then_main, dispatch,
  top, at_main, finish_run, quit_with, leda_raise_yield_event,
}

-- A callback that is no exit.
abbrev pub IsCall : Active → Type 0
IsCall (yielded e) = ⊥
IsCall a = Unit

-- No call of a controller's function leaves with an error.
abbrev pub Returns : Callbacks → Type 0
Returns cb = (name : String) (args : List Value) → cb.comes_back name args ≡ true

-- The values that `run` will return are there.
abbrev pub Left : List Value → Main → Type 0
Left values m = ((below : List Value) × (m.stack ≡ below ++ values)) × (m.main_args ≡ length values)

-- The run goes on with what is left.
abbrev pub GoesOn : List Value → Option Main → Type 0
GoesOn values none = ⊥
GoesOn values (some m) = Left values m

top-append : (below values : List Value) → top (length values) (below ++ values) ≡ values
top-append below values = drop-append _ below values (omega (arith, length-append below values))

call_if-Left :
    (cb : Callbacks) (has : Bool) (name : String) (args values : List Value) (m : Main)
    → Returns cb
    → Left values m
    → GoesOn values (call_if cb has name args m)
call_if-Left cb false name args values m returns left = left
call_if-Left cb true name args values m returns left = rw (returns name args) left

run_active-Left :
    (l : Marshal) (cb : Callbacks) (a : Active) (values : List Value) (m : Main)
    → Returns cb
    → IsCall a
    → Left values m
    → GoesOn values (run_active l cb a m)
unfolding run_active kernel_error_event kernel_event_event kernel_release_event kernel_timer_event
run_active-Left l cb (raised (error_event id)) values m returns is left =
    call_if-Left cb cb.on_error _ _ values m returns left
run_active-Left l cb (raised (event_event id ev c_id c_ev time)) values m returns is left =
    call_if-Left cb cb.on_event _ _ values m returns left
run_active-Left l cb (raised (release_event id time)) values m returns is left =
    call_if-Left cb cb.on_release _ _ values m returns left
run_active-Left l cb (ticked n) values m returns is left =
    call_if-Left cb cb.on_timer _ _ values m returns left
run_active-Left l cb (yielded e) values m returns is left = absurd is

then-GoesOn :
    (values : List Value) (o : Option Main) (f : Main → Option Main)
    → GoesOn values o
    → ((m : Main) → Left values m → GoesOn values (f m))
    → GoesOn values (then_main o f)
then-GoesOn values none f h then_ = absurd h
then-GoesOn values (some m) f h then_ = then_ m h

dispatch-Left :
    (l : Marshal) (cb : Callbacks) (ran : List Active) (values : List Value) (m : Main)
    → Returns cb
    → All IsCall ran
    → Left values m
    → GoesOn values (dispatch l cb ran m)
unfolding dispatch
dispatch-Left l cb [] values m returns calls left = left
dispatch-Left l cb (a ∷ ran) values m returns (is, calls) left =
    then-GoesOn values (run_active l cb a m) (dispatch l cb ran)
      (run_active-Left l cb a values m returns is left)
      (λ m' left'. dispatch-Left l cb ran values m' returns calls left')

then_main_assoc :
    (o : Option Main) (f g h : Main → Option Main)
    → ((m : Main) → h m ≡ then_main (f m) g)
    → then_main o h ≡ then_main (then_main o f) g
then_main_assoc none f g h same = refl
then_main_assoc (some m) f g h same = same m

dispatch-append :
    (l : Marshal) (cb : Callbacks) (xs ys : List Active) (m : Main)
    → dispatch l cb (xs ++ ys) m ≡ then_main (dispatch l cb xs m) (dispatch l cb ys)
unfolding dispatch
dispatch-append l cb [] ys m = refl
dispatch-append l cb (a ∷ xs) ys m =
    then_main_assoc (run_active l cb a m) (dispatch l cb xs) (dispatch l cb ys)
      (dispatch l cb (xs ++ ys)) (λ m'. dispatch-append l cb xs ys m')

GoesOn-results : (values : List Value) (o : Option Main) → GoesOn values o → at_main o ≡ some values
GoesOn-results values none h = absurd h
GoesOn-results values (some m) ((below, is), count) =
    ap some (ap (λ n. top n m.stack) count ∙ ap (top (length values)) is ∙ top-append below values)

-- What `leda_raise_yield_event` makes active restores the values, under the code of `destroy`.
abbrev pub Quits : Marshal → List Value → EventData → List Value → Type 0
Quits l values e yields =
    (restored_values l e ≡ some values) × (status_in yields ≡ destroy) × (tail yields ≡ values)

abbrev QuitsIf : Marshal → List Value → Option (EventData × List Value) → Type 0
QuitsIf l values none = Unit
QuitsIf l values (some (e, yields)) = Quits l values e yields

quit_with-Quits :
    (l : Marshal) (values : List Value) (o : Option (List ℕ))
    → All (λ v. is_nil v ≡ false) values
    → l.encode_all values ≡ o
    → QuitsIf l values (quit_with values o)
unfolding restored_values event_new_packed_event status_of status_after
quit_with-Quits l values none some_all h = tt
quit_with-Quits l values (some bytes) some_all h =
    (l.decode_all-encode_all values bytes some_all h, refl, refl)

-- A handler quits with values that are not nil and can be encoded. If the event base runs that event, after whatever it ran before, also other quits, and then callbacks of the controller, none of which leaves with an error, then `leda_run` returns just these values; and what the handler yields is the status with which its thread destroys the instance.
pub quit-results :
    (l : Marshal) (cb : Callbacks) (values yields : List Value) (e : EventData)
    (before after : List Active) (m m' : Main)
    → All (λ v. is_nil v ≡ false) values
    → leda_raise_yield_event l values ≡ some (e, yields)
    → Returns cb
    → dispatch l cb before m ≡ some m'
    → All IsCall after
    → (finish_run l cb (before ++ yielded e ∷ after) m ≡ some values) × (status_in yields ≡ destroy)
unfolding leda_raise_yield_event finish_run kernel_yield_event restore_event dispatch run_active
quit-results l cb values yields e before after m m' some_all h returns ran calls = (
  rw (dispatch-append l cb before (yielded e ∷ after) m, ran) (GoesOn-results values _ ended),
  quits.1,
)
  where
    quits : Quits l values e yields
    quits =
        subst (QuitsIf l values) h (quit_with-Quits l values (l.encode_all values) some_all refl)

    yielded-Left : GoesOn values (kernel_yield_event l e m')
    yielded-Left = rw (quits.0) ((m'.stack, refl), refl)

    ended :
        GoesOn values
          (then_main (dispatch l cb (yielded e ∷ after) m') (call_if cb cb.finish "finish" []))
    ended =
        then-GoesOn values (dispatch l cb (yielded e ∷ after) m') (call_if cb cb.finish "finish" [])
          (then-GoesOn values (kernel_yield_event l e m') (dispatch l cb after) yielded-Left
            (λ m2 left. dispatch-Left l cb after values m2 returns calls left))
          (λ m2 left. call_if-Left cb cb.finish _ _ values m2 returns left)

-- ===== src/EventLoop/Tests.antt =====
-- A concrete event loop.
use zab.Prelude.{◌≡◌, refl, ◌++◌, length}
use zab.EventLoop.{
  Loop, init, swap, next, dispatch_user_event, Steps, stay, go, dispatch, take_over, proceed,
}
use zab.EventLoop.Fifo.{resumed_in_order}
use zab.EventLoop.Wake.{Drained, no_lost_event}

-- The coroutine waits for the eventfd, and two events have been dispatched with no wake yet.
abbrev asleep : Loop
unfolding swap next dispatch_user_event
asleep = dispatch_user_event (dispatch_user_event (next (swap init)) 7) 8

abbrev asleep_steps : Steps init asleep
unfolding asleep swap next dispatch_user_event
asleep_steps = go (go (go (go stay (take_over refl)) (proceed refl)) (dispatch 7)) (dispatch 8)

resumed_in_order_example :
    (asleep.dispatched ≡ asleep.resumed ++ (asleep.read ++ asleep.write))
    × (asleep.size ≡ length asleep.write)
resumed_in_order_example = resumed_in_order asleep asleep_steps

no_lost_event_example : Drained asleep
unfolding asleep swap next dispatch_user_event
no_lost_event_example = no_lost_event asleep asleep_steps refl (λ e. cc)

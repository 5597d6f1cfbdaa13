-- ===== src/Socket/Tests.antt =====
-- A connection that opens, is lost and is given up, and the theorems of this part along it.
use vps_pilot.Base.{true, some, ◌≡◌, refl, inl, inr}
use vps_pilot.Socket.{
  connecting, Link, delay, connect, on_open, on_close, cleanup, start, Step, opens, closes,
  unmounts, Run, begins, goes_on, live, gone,
}
use vps_pilot.Socket.Laws.{IsSound, SameAfter, reached-IsSound, dead_stays}

abbrev opened_link : Link
opened_link = on_open (record (start connecting) { socket = live })

abbrev lost_link : Link
lost_link = on_close (record opened_link { socket = gone })

abbrev given_up : Link
given_up = cleanup opened_link

opens_first : Run connecting opened_link
unfolding start connect
opens_first = goes_on begins (opens refl refl)

is_lost : Run connecting lost_link
unfolding on_open start connect
is_lost = goes_on opens_first (closes (inr (inl refl)) refl)

lost_link_test : lost_link.timer ≡ some 1000
unfolding on_open on_close start connect delay
lost_link_test = refl

is_given_up : Run connecting given_up
unfolding on_open start connect
is_given_up = goes_on opens_first (unmounts refl refl)

reached-IsSound_example : IsSound lost_link
reached-IsSound_example = reached-IsSound is_lost

closes_late : Step given_up (on_close (record given_up { socket = gone }))
unfolding on_open start connect cleanup
closes_late = closes (inr (inr refl)) refl

given_up-dead : given_up.dead ≡ true
unfolding cleanup
given_up-dead = refl

dead_stays_example : SameAfter given_up (on_close (record given_up { socket = gone }))
dead_stays_example = dead_stays is_given_up given_up-dead closes_late

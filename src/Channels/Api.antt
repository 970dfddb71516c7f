-- ===== src/Channels/Api.antt =====
-- channels/hub.go: the methods that call into the app's channels between two holds of the mutex.
use trails.Base.{
  ℕ, suc, Option, none, some, List, [], ◌∷◌, is_some, if◌then◌else◌, Text, Table, lookup, insert,
  erase, Result, ok, err, update, ◌>>=◌,
}
use trails.Channels.Hub.{
  Broadcaster, Subscriber, Hub, HubError, unknown_connection, already_subscribed, not_subscribed,
  unknown_channel, Channels, set_conn, disconnect_locked, untrack_topics,
}

abbrev or_error {ℓ κ} : {E : Type ℓ} {A : Type κ} → Option A → E → Result E A
or_error none e = err e
or_error (some a) e = ok a

abbrev pub new_subscriber : {C : Type 0} → ℕ → Text → C → Table Text → Subscriber C
new_subscriber c name ch params = record {
  conn = c;
  channel = ch;
  name = name;
  params = params;
  topics = [];
}

module _ {B : Broadcaster} {C : Type 0} where
  unfoldable pub find_conn : Text → Hub B C → Result (HubError B C) ℕ
  unfolding lookup
  find_conn id h = or_error (lookup id h.conns) (unknown_connection id)

  unfoldable pub find_sub : Text → Text → Hub B C → Result (HubError B C) (ℕ × ℕ)
  unfolding find_conn
  find_sub id name h = do
    c ← find_conn id h
    p ← or_error (lookup name (h.conn_at c).subs) (not_subscribed name)
    ok (c, p)

  -- The first hold of the mutex in Subscribe.
  unfoldable pub subscribe_check : Text → Text → Hub B C → Result (HubError B C) ℕ
  unfolding find_conn
  subscribe_check id name h = do
    c ← find_conn id h
    if is_some (lookup name (h.conn_at c).subs) then err (already_subscribed name) else ok c

  abbrev pub add_subscriber : ℕ → Text → C → Table Text → Hub B C → ℕ × Hub B C
  add_subscriber c name ch params h = (
    h.next,
    record h {
      sub_at = update h.next (new_subscriber c name ch params) h.sub_at;
      conn_at =
          update c (record (h.conn_at c) { subs = insert name h.next (h.conn_at c).subs })
            h.conn_at;
      next = suc h.next;
    },
  )

  -- The second: the check again, and the new subscriber.
  unfoldable pub subscribe_register :
      ℕ → Text → C → Table Text → Hub B C → Result (HubError B C) (ℕ × Hub B C)
  unfolding lookup insert update
  subscribe_register c name ch params h =
      if is_some (lookup name (h.conn_at c).subs)
      then err (already_subscribed name)
      else ok (add_subscriber c name ch params h)

  abbrev pub drop_sub : ℕ → Text → Hub B C → Hub B C
  drop_sub c name h = set_conn c (record (h.conn_at c) { subs = erase name (h.conn_at c).subs }) h

module _ {B : Broadcaster} {C : Type 0} (A : Channels B C) where
  abbrev Outcome : Type 0
  Outcome = Option (HubError B C) × Hub B C

  abbrev roll_back : ℕ → Text → ℕ → Outcome → Outcome
  roll_back c name p (none, h) = (none, h)
  roll_back c name p (some e, h) = (some e, untrack_topics p (drop_sub c name h))

  abbrev registered :
      ℕ → Text → C → Table Text → Result (HubError B C) (ℕ × Hub B C) → Hub B C → Outcome
  registered c name ch params (err e) h = (some e, h)
  registered c name ch params (ok (p, h')) h = roll_back c name p (A.subscribed ch p params h')

  abbrev checked : Text → Table Text → Result (HubError B C) (ℕ × C) → Hub B C → Outcome
  checked name params (err e) h = (some e, h)
  checked name params (ok (c, ch)) h =
      registered c name ch params (subscribe_register c name ch params h) h

  unfoldable pub new_channel : Text → Result (HubError B C) C
  new_channel name = or_error (A.factory name) (unknown_channel name)

  -- With nothing in between; Steps has the parts one by one.
  unfoldable pub subscribe : Text → Text → Table Text → Hub B C → Outcome
  unfolding subscribe_check new_channel subscribe_register untrack_topics erase update
  subscribe id name params h =
      checked name params (do c ← subscribe_check id name h; ch ← new_channel name; ok (c, ch)) h

  unfoldable pub teardown : ℕ → Hub B C → Hub B C
  unfolding untrack_topics
  teardown p h = untrack_topics p (A.unsubscribed (h.sub_at p).channel p h)

  unfoldable pub teardown_each : List ℕ → Hub B C → Hub B C
  unfolding teardown
  teardown_each [] h = h
  teardown_each (p ∷ ps) h = teardown_each ps (teardown p h)

  unfoldable pub disconnect : Text → Hub B C → Hub B C
  unfolding disconnect_locked teardown_each
  disconnect id h = let (ps, h') = disconnect_locked id h in teardown_each ps h'

  abbrev dropped : Text → Result (HubError B C) (ℕ × ℕ) → Hub B C → Outcome
  dropped name (err e) h = (some e, h)
  dropped name (ok (c, p)) h = (none, teardown p (drop_sub c name h))

  unfoldable pub unsubscribe : Text → Text → Hub B C → Outcome
  unfolding find_sub erase update
  unsubscribe id name h = dropped name (find_sub id name h) h

  abbrev received : Text → Result (HubError B C) (ℕ × ℕ) → Hub B C → Outcome
  received payload (err e) h = (some e, h)
  received payload (ok (c, p)) h = A.receive (h.sub_at p).channel p payload h

  unfoldable pub receive : Text → Text → Text → Hub B C → Outcome
  unfolding find_sub
  receive id name payload h = received payload (find_sub id name h) h

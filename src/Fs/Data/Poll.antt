-- ===== src/Fs/Data/Poll.antt =====
-- `MqttfsPoll`: what it reports, and what it does with the handles.
use mqttfs.Base.{
  ℕ, List, [], ◌∷◌, ◌++◌, true, false, Option, none, some, ◌≡◌, refl, sym, ap, ◌∙◌, arith,
  if◌then◌else◌, bit_or,
}
use mqttfs.Node.{Node, pollhandle_destroy, FuseCall}
use mqttfs.Store.{Context, update, load, store, ok}
use mqttfs.Fs.Data.{pollin, pollout, mqttfs_poll}
use mathlib.Core.List.{append-nil}

abbrev pub dropped : Option ℕ → List FuseCall
dropped none = []
dropped (some ph) = pollhandle_destroy ph ∷ []

abbrev after_poll : ℕ → ℕ → Context → Node → List FuseCall → Context
after_poll fh ph c n calls = record c {
  nodes =
      update (update c.nodes fh (some (record n { ph = some ph }))) fh
        (some (record n { ph = some ph; was_updated = false }));
  calls = calls;
}

module _ (fh ph revents : ℕ) (c : Context) (n : Node) (e : c.nodes fh ≡ some n) where
  abbrev reported : ℕ
  reported =
      if n.was_updated then bit_or (bit_or revents pollout) pollin else bit_or revents pollout

  poll_none :
      n.ph ≡ none
      → mqttfs_poll true fh (some ph) revents c
        ≡ some ((ok 0, reported), after_poll fh ph c n c.calls)
  unfolding mqttfs_poll load store
  poll_none k = ground (arith, e, k)

  poll_some :
      (old : ℕ)
      → n.ph ≡ some old
      → mqttfs_poll true fh (some ph) revents c
        ≡ some ((ok 0, reported), after_poll fh ph c n (c.calls ++ pollhandle_destroy old ∷ []))
  unfolding mqttfs_poll load store
  poll_some old k = ground (arith, e, k)

  poll_any :
      (o : Option ℕ)
      → n.ph ≡ o
      → mqttfs_poll true fh (some ph) revents c
        ≡ some ((ok 0, reported), after_poll fh ph c n (c.calls ++ dropped o))
  poll_any none k =
      poll_none k
      ∙ ap (λ l. some ((ok 0, reported), after_poll fh ph c n l)) (sym (append-nil c.calls))
  poll_any (some old) k = poll_some old k

  abbrev stored_again : List FuseCall → Context
  stored_again calls = record (after_poll fh ph c n calls) {
    nodes =
        update (after_poll fh ph c n calls).nodes fh
          (some (record n { ph = some ph; was_updated = false }));
  }

  poll_again :
      (calls : List FuseCall)
      → mqttfs_poll true fh none revents (after_poll fh ph c n calls)
        ≡ some ((ok 0, bit_or revents pollout), stored_again calls)
  unfolding mqttfs_poll load store
  poll_again calls = ground (arith, e)

-- With the lock, a poll with a new handle keeps that handle in the node and destroys the one that
-- was kept; it reports the entry as writable, and as readable if it was updated since the last
-- poll. So a poll without a handle right behind it reports it as writable only, keeps the handle,
-- and destroys and notifies nothing.
pub mqttfs_poll-twice :
    (fh ph revents : ℕ) (c : Context) (n : Node)
    → c.nodes fh ≡ some n
    → (c' : Context) × (mqttfs_poll true fh (some ph) revents c
        ≡ some (
          (
            ok 0,
            if n.was_updated
                then bit_or (bit_or revents pollout) pollin
                else bit_or revents pollout,
          ),
          c',
        ))
      × (c'.nodes fh ≡ some (record n { ph = some ph; was_updated = false }))
      × (c'.calls ≡ c.calls ++ dropped n.ph)
      × ((c'' : Context) × (mqttfs_poll true fh none revents c'
            ≡ some ((ok 0, bit_or revents pollout), c''))
          × (c''.nodes fh ≡ some (record n { ph = some ph; was_updated = false }))
          × (c''.calls ≡ c'.calls))
mqttfs_poll-twice fh ph revents c n e = (
  after_poll fh ph c n (c.calls ++ dropped n.ph),
  poll_any fh ph revents c n e n.ph refl,
  ground arith,
  refl,
  (
    stored_again fh ph revents c n e (c.calls ++ dropped n.ph),
    poll_again fh ph revents c n e (c.calls ++ dropped n.ph),
    ground arith,
    refl,
  ),
)

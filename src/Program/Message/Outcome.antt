-- ===== src/Program/Message/Outcome.antt =====
-- What `OnMqttMessage` comes to: for an entry that is there, for a new topic, and where it crashes.
use mqttfs.Base.{
  ℕ, suc, ◌≤◌, ◌<◌, List, ◌++◌, Bool, true, false, none, some, if◌then◌else◌, ◌≡◌, ◌≢◌, inl, inr,
  refl, sym, ap, ◌∙◌, arith, Bool-cases, length, length-take, take,
}
use mathlib.Core.Path.{subst, fun_ext, ap₂}
use mathlib.Core.List.{append-nil}
use mqttfs.Str.{Str, IsStr, text, copied, str_base_path}
use mqttfs.Str.Copy.{text-copied}
use mqttfs.Str.Paths.{base_path-shrinks, base_path-IsStr}
use mqttfs.Node.{Timespec, Node, FuseCall, fresh_node, node_create, node_update, update_polled}
use mqttfs.Node.Update.{
  IsNode, fresh_node-IsNode, node_update_lem, node_update-result, is_update_granted, AfterUpdate,
  woken,
}
use mqttfs.Store.{Context, node, ◌>>=◌}
use mqttfs.Store.Search.{Found, lookup, same, same→eq, eq→same, IsValid, IsFound}
use mqttfs.Store.Edit.{with_new}
use mqttfs.Store.Insert.{inserted, IsValid-inserted, lookup-inserted}
use mqttfs.Store.Replace.{replaced, IsValid-replaced, IsValid-calls}
use mqttfs.Program.Message.{MessageAnswers, ensure_parents, on_mqtt_message, finish_parents}
use mqttfs.Program.Message.Keeping.{Kept, HasParents, NoFile, HasParents-shorter, NoFile-shorter}
use mqttfs.Program.Message.Chain.{GrantsParents, granted_node, Chained, ensure_parents-Chained}
use mqttfs.Program.Message.Laws.{message_added, with_topic, here, message_file, message_directory}

module _ (a : MessageAnswers) (payload : List ℕ) (payload_len : ℕ)
    (b : payload_len ≤ length payload) where
  abbrev pub update_of : Node → Bool × Node × List FuseCall
  update_of n = node_update a.updated n payload payload_len

  -- What becomes of a node that the message has been written to.
  record Filled (n : Node) (r : Bool × Node × List FuseCall) : Type 0 where
    good : IsNode r.1
    path : r.1.path ≡ n.path
    is_file : r.1.is_dir ≡ n.is_dir
    content : r.0 ≡ true → r.1.content ≡ take payload_len payload
    calls : r.0 ≡ true → r.2 ≡ woken n.ph

  filled :
      (n : Node) (r : Bool × Node × List FuseCall)
      → IsNode n
      → AfterUpdate a.updated n payload payload_len r
      → Filled n r
  filled n (false, n', calls) g (e, x) = record {
    good = subst IsNode (sym e) g;
    path = ap (λ n. n.path) e;
    is_file = ap (λ n. n.is_dir) e;
    content = λ u. cc;
    calls = λ u. cc;
  }
  filled n (true, n', calls) g (now, clock, e, x) = record {
    good = subst IsNode (sym e) (record {
      path_there = g.path_there;
      content_size = omega (arith, length-take payload_len payload);
    });
    path = ap (λ n. n.path) e;
    is_file = ap (λ n. n.is_dir) e;
    content = λ u. ap (λ n. n.content) e;
    calls = λ u. x;
  }

  update-Filled : (n : Node) → IsNode n → Filled n (update_of n)
  update-Filled n g = filled n (update_of n) g (node_update_lem a.updated n payload payload_len)

  abbrev pub ExistingOutcome : Found → Context → Context → Bool → Type 0
  ExistingOutcome f c c' true = c' ≡ c
  ExistingOutcome f c c' false =
      (n' : Node) × (calls : List FuseCall) × (c'.nodes f.addr ≡ some n')
      × ((other : ℕ) → other ≢ f.addr → c'.nodes other ≡ c.nodes other)
      × (c'.root ≡ c.root)
      × (c'.calls ≡ c.calls ++ calls)
      × (c'.mqtt ≡ c.mqtt)
      × AfterUpdate a.updated f.found payload payload_len
          (is_update_granted a.updated f.found.ph, n', calls)

  pub record Existing (topic : Str) (c : Context) (f : Found) : Type 0 where
    pub after : Context
    pub returns : on_mqtt_message a topic payload payload_len c ≡ some (tt, after)
    pub valid : IsValid after
    pub outcome : ExistingOutcome f c after f.found.is_dir

  Existing-message :
      (topic : Str) (c : Context) (f : Found)
      → IsValid c
      → IsStr topic
      → a.locked ≡ true
      → lookup c (text topic) ≡ some f
      → Existing topic c f
  Existing-message topic c f v h l e = elim (Bool-cases f.found.is_dir) [
    | inl d ↦ record {
      after = c;
      returns = message_directory a topic payload payload_len c v h f l e d;
      valid = v;
      outcome = subst (ExistingOutcome f c c) (sym d) refl;
    }
    | inr d ↦
        let here = is_here in
        let good = update-Filled f.found here.good in
        record {
          after = record (replaced c f.addr (update_of f.found).1) {
            calls = c.calls ++ (update_of f.found).2;
          };
          returns = message_file a topic payload payload_len c v h f l e d;
          valid = IsValid-calls _ _ (
              IsValid-replaced c f.addr f.found (update_of f.found).1 v here.stored good.path
                good.good);
          outcome =
              subst
                (ExistingOutcome f c (record (replaced c f.addr (update_of f.found).1) {
                  calls = c.calls ++ (update_of f.found).2;
                }))
                (sym d)
                (
                  (update_of f.found).1,
                  (update_of f.found).2,
                  ground arith,
                  (λ other x. ground (arith, x)),
                  refl,
                  refl,
                  refl,
                  updated,
                );
        }
  ]
    where
      updated :
          AfterUpdate a.updated f.found payload payload_len
            (is_update_granted a.updated f.found.ph, (update_of f.found).1, (update_of f.found).2)
      updated =
          subst
            (λ b.
              AfterUpdate a.updated f.found payload payload_len
                (b, (update_of f.found).1, (update_of f.found).2))
            (node_update-result a.updated f.found payload payload_len)
            (node_update_lem a.updated f.found payload payload_len)

      is_here : IsFound c.nodes (text topic) f
      is_here = here a topic payload payload_len c v h f l e

  pub record Added (topic : Str) (c : Context) : Type 0 where
    pub after : Context
    pub returns : on_mqtt_message a topic payload payload_len c ≡ some (tt, after)
    pub valid : IsValid after
    pub stored :
        (f : Found) × (lookup after (text topic) ≡ some f)
        × (f.found.is_dir ≡ false)
        × (f.found.content ≡ take payload_len payload)
    pub others : (key : List ℕ) → text topic ≢ key → Kept (lookup c key) (lookup after key)
    pub parents : HasParents (suc topic.size) c after (str_base_path topic)
    pub same_mqtt : after.mqtt ≡ c.mqtt
    pub same_calls : after.calls ≡ c.calls

  module _ (topic : Str) (c : Context) (v : IsValid c) (h : IsStr topic) (l : a.locked ≡ true)
      (e : lookup c (text topic) ≡ none) (now : Timespec) where
    abbrev pub made : Node
    made = fresh_node now false (copied topic)

    fill : Filled made (update_of made)
    fill = update-Filled made (fresh_node-IsNode now false topic h)

    pub with_topic-inserted :
        (g : a.tree_grown 0 ≡ true)
        → (update_of made).0 ≡ true
        → with_topic a topic payload payload_len c v h l e g made ≡ inserted c (update_of made).1
    unfolding inserted
    with_topic-inserted g u =
        ap₂
          (λ nodes calls. record c {
            nodes = nodes;
            next = suc (suc c.next);
            root = with_new c.root c.next (node (suc c.next));
            calls = calls;
          })
          (fun_ext (λ x. ground arith)) (ap (λ k. c.calls ++ k) (fill.calls u) ∙ append-nil c.calls)

    looked_up :
        (key : List ℕ)
        → lookup (inserted c (update_of made).1) key ≡ (
            if same (text topic) key
            then some (record { slot = c.next; addr = suc c.next; found = (update_of made).1 })
            else lookup c key)
    unfolding lookup
    looked_up key =
        lookup-inserted topic c v (update_of made).1 key e (ap text fill.path ∙ text-copied topic h)

    pub inserted_good : IsValid (inserted c (update_of made).1)
    unfolding lookup
    inserted_good =
        IsValid-inserted topic c v (update_of made).1 e (ap text fill.path ∙ text-copied topic h)
          fill.good

    elsewhere :
        (key : List ℕ)
        → text topic ≢ key
        → lookup (inserted c (update_of made).1) key ≡ lookup c key
    elsewhere key d =
        looked_up key
        ∙ ap
            (λ x.
              if x
              then some (record { slot = c.next; addr = suc c.next; found = (update_of made).1 })
              else lookup c key)
            (apart (same (text topic) key) refl)
      where
        apart : (x : Bool) → same (text topic) key ≡ x → same (text topic) key ≡ false
        apart true p = absurd (d (same→eq (text topic) key p))
        apart false p = p

    pub shorter :
        (b : Str)
        → IsStr b
        → b.size < topic.size
        → lookup (inserted c (update_of made).1) (text b) ≡ lookup c (text b)
    shorter b k s = elsewhere (text b) (λ p. absurd (
        omega (
          arith,
          ap (length {A = ℕ}) p,
          length-take b.size b.chars,
          length-take topic.size topic.chars,
        )))

    add_done :
        (g : a.tree_grown 0 ≡ true)
        → node_create (a.created 0) topic false ≡ some made
        → (update_of made).0 ≡ true
        → (r : Chained a (suc topic.size) 1 (str_base_path topic) (inserted c (update_of made).1))
        → on_mqtt_message a topic payload payload_len c ≡ some (tt, r.after)
    unfolding finish_parents
    add_done g m u r =
        message_added a topic payload payload_len c v h l e g made m u
        ∙ ap
            (ensure_parents a (suc topic.size) 1 (str_base_path topic)
              >>= finish_parents (suc c.next) topic)
            (with_topic-inserted g u)
        ∙ ap (λ o. elim o [ none ↦ none | some (x, c') ↦ finish_parents (suc c.next) topic x c' ])
            r.returns

    add-Added :
        (g : a.tree_grown 0 ≡ true)
        → node_create (a.created 0) topic false ≡ some made
        → (update_of made).0 ≡ true
        → 0 < topic.size
        → Chained a (suc topic.size) 1 (str_base_path topic) (inserted c (update_of made).1)
        → Added topic c
    unfolding inserted
    add-Added g m u p r = record {
      after = r.after;
      returns = add_done g m u r;
      valid = r.valid;
      stored = (
        record { slot = c.next; addr = suc c.next; found = (update_of made).1 },
        subst (λ o. Kept o (lookup r.after (text topic)))
            (looked_up (text topic)
              ∙ ap
                  (λ x.
                    if x
                    then some
                        (record { slot = c.next; addr = suc c.next; found = (update_of made).1 })
                    else lookup c (text topic))
                  (eq→same (text topic) (text topic) refl))
            (r.keeps (text topic)),
        fill.is_file,
        fill.content u,
      );
      others = λ key d. subst (λ o. Kept o (lookup r.after key)) (elsewhere key d) (r.keeps key);
      parents =
          HasParents-shorter (suc topic.size) topic.size c (inserted c (update_of made).1) r.after
            (str_base_path topic) shorter (base_path-IsStr topic h)
            (omega (arith, base_path-shrinks topic)) r.parents;
      same_mqtt = r.same_mqtt;
      same_calls = r.same_calls;
    }

  Added-message :
      (topic : Str) (c : Context) (now : Timespec)
      → IsValid c
      → IsStr topic
      → 0 < topic.size
      → a.locked ≡ true
      → lookup c (text topic) ≡ none
      → NoFile (suc topic.size) c (str_base_path topic)
      → GrantsParents a
      → a.updated.clock ≡ some now
      → a.updated.allocated ≡ true
      → Added topic c
  unfolding node_update update_polled
  Added-message topic c now v h p l e n g k y =
      let (t, m) = granted_node a 0 topic false g in
      let base = str_base_path topic in
      let b_str = base_path-IsStr topic h in
      let less : base.size < topic.size = omega (arith, base_path-shrinks topic) in
      add-Added topic c v h l e t (g 0).0 m (done t) p (
        ensure_parents-Chained a (suc topic.size) 1 base _ g (inserted_good topic c v h l e t) b_str
          (omega arith)
          (NoFile-shorter (suc topic.size) topic.size c _ base (shorter topic c v h l e t) b_str
            less n))
    where
      done : (t : Timespec) → (update_of (fresh_node t false (copied topic))).0 ≡ true
      done t = ground (arith, k, y)

-- A message for an entry that is there, on a valid store and with the lock, leaves a directory as
-- it is. A file gets the payload and the current time, and a poll that is blocked on it is woken,
-- exactly if the system grants the clock, the memory and, where there is such a poll, its
-- notification; else the file is as it was. No other node changes, the tree keeps its elements and
-- the store stays valid.
pub on_mqtt_message-Existing :
    (a : MessageAnswers) (payload : List ℕ) (payload_len : ℕ) (b : payload_len ≤ length payload)
    (topic : Str) (c : Context) (f : Found)
    → IsValid c
    → IsStr topic
    → a.locked ≡ true
    → lookup c (text topic) ≡ some f
    → Existing a payload payload_len b topic c f
on_mqtt_message-Existing a payload payload_len b topic c f v h l e =
    Existing-message a payload payload_len b topic c f v h l e

-- A message for a new topic that is not empty, on a valid store, with the lock, with everything
-- granted and no file above it, puts a file with the payload into the tree and makes each directory
-- above it that is missing. The entries that were there stay as they were, what else is new is an
-- empty directory, and the store stays valid.
pub on_mqtt_message-Added :
    (a : MessageAnswers) (payload : List ℕ) (payload_len : ℕ) (b : payload_len ≤ length payload)
    (topic : Str) (c : Context) (now : Timespec)
    → IsValid c
    → IsStr topic
    → 0 < topic.size
    → a.locked ≡ true
    → lookup c (text topic) ≡ none
    → NoFile (suc topic.size) c (str_base_path topic)
    → GrantsParents a
    → a.updated.clock ≡ some now
    → a.updated.allocated ≡ true
    → Added a payload payload_len b topic c
on_mqtt_message-Added a payload payload_len b topic c now v h p l e n g k y =
    Added-message a payload payload_len b topic c now v h p l e n g k y

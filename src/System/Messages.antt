-- ===== src/System/Messages.antt =====
-- A message does what it promises of the map.
use mqttfs.Base.{
  ℕ, ◌≤◌, List, Bool, true, false, Option, none, some, ◌≡◌, ◌≢◌, inl, inr, refl, sym, ap, ◌∙◌,
  arith, if◌then◌else◌, take, length, length-take, Bool-cases, ◌==◌, ◌&&◌,
}
use mathlib.Core.Option
use mathlib.Core.Path.{subst, fun_ext}
use mqttfs.Str.{Str, IsStr, text}
use mqttfs.Node.{Node, FuseCall}
use mqttfs.Node.Update.{IsNode, AfterUpdate, is_update_granted, has_time}
use mqttfs.Store.{Context, update}
use mqttfs.Store.Search.{Found, find, lookup, same, eq→same, same→eq, IsValid}
use mqttfs.Store.Replace.{replaced}
use mqttfs.Program.Message.{MessageAnswers}
use mqttfs.Program.Message.Keeping.{Kept}
use mqttfs.Program.Message.Outcome.{
  ExistingOutcome, on_mqtt_message-Existing, on_mqtt_message-Added,
}
use mqttfs.System.{
  Entry, entry_of, view, Op, message, run, Stays, Refines, Effect, Unchanged, FileOutcome,
  MessageOutcome,
}
use mqttfs.System.Allowed.{IsNew}
use mqttfs.System.Written.{found_in, lookup-replaced, empty_content}
use mqttfs.System.Clients.{client_same, existing_client}
use mqttfs.System.Steps.{Step, view_kept, view_at}

Stays-same : (o : Option Entry) → Stays o o
Stays-same none = tt
Stays-same (some e) = refl

Kept-Stays :
    (c c' : Context) (key : List ℕ) (o o' : Option Found)
    → IsValid c'
    → lookup c' key ≡ o'
    → Kept o o'
    → Stays (Option.map entry_of o) (Option.map entry_of o')
Kept-Stays c c' key (some f) o' v e k = ap (Option.map entry_of) k
Kept-Stays c c' key none none v e k = tt
Kept-Stays c c' key none (some f) v e (d, z) =
    ap (λ (b : Bool). (b, f.found.content)) d ∙ ap (λ l. (true, l)) (empty_content c' key f v e z)

module _ (a : MessageAnswers) (topic : Str) (payload : List ℕ) (payload_len : ℕ) (c : Context)
    (v : IsValid c) (b : payload_len ≤ length payload) (h : IsStr topic) (l : a.locked ≡ true) where
  abbrev op : Op
  op = message a topic payload payload_len

  module _ (f : Found) (e : lookup c (text topic) ≡ some f) where
    -- The state differs in one node.
    one_node :
        (c' : Context) (n : Node)
        → c'.nodes f.addr ≡ some n
        → ((other : ℕ) → other ≢ f.addr → c'.nodes other ≡ c.nodes other)
        → c'.root ≡ c.root
        → (key : List ℕ) → lookup c' key ≡ lookup (replaced c f.addr n) key
    unfolding lookup
    one_node c' n s o r key =
        ap (λ root. find c'.nodes key root) r
        ∙ ap (λ nodes. find nodes key c.root) (fun_ext pointwise)
      where
        pointwise : (x : ℕ) → c'.nodes x ≡ update c.nodes f.addr (some n) x
        pointwise x = elim (Bool-cases (f.addr == x)) [
          | inl p ↦ rw p (ap c'.nodes (sym (ground (arith, p))) ∙ s)
          | inr p ↦ rw p (o x (ground (arith, p)))
        ]

    abbrev ByDone : Context → Bool → Type 0
    ByDone c' true = Effect op (view c) (view c')
    ByDone c' false = Unchanged (view c) (view c')

    blocked-Outcome :
        (c' : Context) (blocked free : Bool)
        → ByDone c' blocked
        → FileOutcome op (view c) (view c') blocked free
    blocked-Outcome c' true free x = x
    blocked-Outcome c' false true x = inl x
    blocked-Outcome c' false false x = x

    free-Outcome :
        (c' : Context) (time allocated notified : Bool)
        → ByDone c' (time && allocated)
        → FileOutcome op (view c) (view c') (time && (allocated && notified)) (time && allocated)
    free-Outcome c' false allocated notified x = x
    free-Outcome c' true false notified x = x
    free-Outcome c' true true true x = x
    free-Outcome c' true true false x = inr x

    by_handle :
        (c' : Context) (ph : Option ℕ)
        → ByDone c' (is_update_granted a.updated ph)
        → FileOutcome op
            (view c)
            (view c')
            (is_update_granted a.updated (some 0))
            (is_update_granted a.updated none)
    by_handle c' none x =
        free-Outcome c' (has_time a.updated.clock) a.updated.allocated (a.updated.notified == 0) x
    by_handle c' (some ph) x = blocked-Outcome c' _ _ x

    updated-ByDone :
        (c' : Context) (done : Bool) (n : Node) (calls : List FuseCall)
        → f.found.is_dir ≡ false
        → ((key : List ℕ) → lookup c' key ≡ lookup (replaced c f.addr n) key)
        → AfterUpdate a.updated f.found payload payload_len (done, n, calls)
        → ByDone c' done
    updated-ByDone c' false n calls d s (p, x) = (λ key. ap (Option.map entry_of) (
        s key
        ∙ lookup-replaced c v (text topic) f e n (ap (λ n. n.path) p)
            (subst IsNode (sym p) here_good) key
        ∙ unchanged key))
      where
        here_good : IsNode f.found
        here_good = (found_in c (text topic) f v e).good

        unchanged :
            (key : List ℕ)
            → (if same (text topic) key then some (record f { found = n }) else lookup c key)
              ≡ lookup c key
        unchanged key = elim (Bool-cases (same (text topic) key)) [
          | inl t ↦ rw t (
              ap (λ n. some (record f { found = n })) p
              ∙ sym e
              ∙ ap (lookup c) (same→eq (text topic) key t))
          | inr t ↦ rw t refl
        ]
    updated-ByDone c' true n calls d s (now, k, p, x) = (at_topic, elsewhere)
      where
        good : IsNode n
        good = subst IsNode (sym p) (record {
          path_there = (found_in c (text topic) f v e).good.path_there;
          content_size = omega (arith, length-take payload_len payload);
        })

        seen :
            (key : List ℕ)
            → lookup c' key
              ≡ (if same (text topic) key then some (record f { found = n }) else lookup c key)
        seen key = s key ∙ lookup-replaced c v (text topic) f e n (ap (λ n. n.path) p) good key

        at_topic : view c' (text topic) ≡ some (false, take payload_len payload)
        at_topic =
            ap (Option.map entry_of) (
              seen (text topic)
              ∙ ap (λ b. if b then some (record f { found = n }) else lookup c (text topic))
                  (eq→same (text topic) (text topic) refl))
            ∙ ap (λ (n : Node). some (n.is_dir, n.content)) p
            ∙ ap (λ (b : Bool). some (b, take payload_len payload)) d

        elsewhere : (key : List ℕ) → text topic ≢ key → Stays (view c key) (view c' key)
        elsewhere key ne = elim (Bool-cases (same (text topic) key)) [
          | inl t ↦ absurd (ne (same→eq (text topic) key t))
          | inr t ↦
              subst (Stays (view c key))
                (sym (
                  ap (Option.map entry_of) (
                    seen key
                    ∙ ap (λ b. if b then some (record f { found = n }) else lookup c key) t)))
                (Stays-same (view c key))
        ]

    seen_as :
        (c' : Context) (entry : Entry)
        → entry_of f ≡ entry
        → MessageOutcome op a.updated (view c) (view c') (some entry)
        → Refines op (view c) (view c') none
    seen_as c' entry d x =
        subst (MessageOutcome op a.updated (view c) (view c'))
          (sym (view_at c (text topic) (some f) e ∙ ap (λ x. some x) d)) x

    existing-Refines :
        (c' : Context) (d : Bool)
        → f.found.is_dir ≡ d
        → ExistingOutcome a payload payload_len b f c c' d
        → Refines op (view c) (view c') none
    existing-Refines c' true d p =
        seen_as c' (true, f.found.content) (ap (λ b. (b, f.found.content)) d) (view_kept c c' p)
    existing-Refines c' false d (n, calls, s, others, r, q, mqtt, x) =
        seen_as c' (false, f.found.content) (ap (λ b. (b, f.found.content)) d)
          (by_handle c' f.found.ph (
            updated-ByDone c' (is_update_granted a.updated f.found.ph) n calls d
              (one_node c' n s others r) x))

    pub existing-Step : Step op c
    unfolding run
    existing-Step =
        let x = on_mqtt_message-Existing a payload payload_len b topic c f v h l e in
        record {
          answer = none;
          after = x.after;
          returns = ap (λ o. elim o [ none ↦ none | some (r, c') ↦ some (none, c') ]) x.returns;
          valid = x.valid;
          refines = existing-Refines x.after f.found.is_dir refl x.outcome;
          client = existing_client a payload payload_len b f c x.after f.found.is_dir x.outcome;
        }

  pub new-Step : lookup c (text topic) ≡ none → IsNew a topic c → Step op c
  unfolding run
  new-Step e (p, n, g, (now, k), y) =
      let x = on_mqtt_message-Added a payload payload_len b topic c now v h p l e n g k y in
      let (f, s, d, content) = x.stored in
      record {
        answer = none;
        after = x.after;
        returns = ap (λ o. elim o [ none ↦ none | some (r, c') ↦ some (none, c') ]) x.returns;
        valid = x.valid;
        client = client_same c x.after x.same_mqtt;
        refines =
            subst (MessageOutcome op a.updated (view c) (view x.after))
              (sym (view_at c (text topic) none e))
              (
                view_at x.after (text topic) (some f) s
                    ∙ ap (λ (b : Bool). some (b, f.found.content)) d
                    ∙ ap (λ l. some (false, l)) content,
                λ key ne.
                    Kept-Stays c x.after key (lookup c key) (lookup x.after key) x.valid refl
                      (x.others key ne),
              );
      }

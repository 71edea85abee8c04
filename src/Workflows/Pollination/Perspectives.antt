-- ===== src/Workflows/Pollination/Perspectives.antt =====
-- What a pollination does to the two stores.
use kai_daemon.Base.{
  In, All, List, [], ◌∷◌, ◌+◌, ◌*◌, leb, Bool, ◌&&◌, ◌||◌, ◌⊎◌, ◌∙◌, ◌≡◌, refl, sym, ap, subst, inl,
  inr, String, true, false, Option, none, some, Bool-cases,
}
use kai_daemon.Base.Outcome.{
  Outcome, Exception, return, raise, continue, bind_raises, bind_goes, Outcome-cases,
}
use kai_daemon.Base.Text.{Unicode, chars, joined, strip, to_lower, to_upper, same_text, first_token}
use kai_daemon.Base.Dict
use kai_daemon.Base.Time.{Stamp, aware, naive, malformed, hour}
use kai_daemon.State.Threads.{
  Thread, DaemonPerspective, may_write, new_perspective, Services, ThreadStore, add_perspective,
}
use kai_daemon.State.Threads.Calls.{Call, adds_perspective, call}
use kai_daemon.State.Scratch.{NoteYaml, ScratchStore}
use kai_daemon.Workflows.Pollination.{
  Prompt, is_recent, same_topic, has_recent, World, Settings, relevance_prompt, reflection_prompt,
  is_duplicate, says_relevant, ask, perspective_of, after_add, write_perspective, reflect, visit,
}

module _ (u : Unicode) (env : Services) (yaml : NoteYaml) (I : Type 0) (c : Settings u env yaml I)
    (topic : String) where
  abbrev pub adds : Thread → String → Call
  adds t response =
      adds_perspective t.id
        (record {
          content = joined (strip u.is_space (chars response));
          from_fascination = topic;
          written_at = aware c.now;
          thread_status_at_writing = t.status;
          surfaced = false;
        })
        c.touched

  -- Not earlier than so many hours before now, in UTC where there is no offset.
  abbrev pub is_within : Stamp → Bool
  is_within (aware t) = leb c.now (t + c.dedup_hours * hour)
  is_within (naive t) = leb c.now (t + c.dedup_hours * hour)
  is_within (malformed text) = false

  -- The topic, but for case, wrote it within those hours.
  abbrev pub repeats : DaemonPerspective → Bool
  repeats p =
      same_text (to_lower u (chars p.from_fascination)) (to_lower u (chars topic))
      && is_within p.written_at

  -- The model answered whether the topic is relevant to the thread: its first word is "RELEVANT", or
  -- another.
  abbrev pub Answered : Thread → Bool → Type 0
  Answered t told =
      (m : I) × (response : String) × ((c.infer (relevance_prompt topic t) m).0 ≡ return response)
      × (same_text (first_token u.is_space (to_upper u (strip u.is_space (chars response))))
            (chars "RELEVANT")
          ≡ told)

  -- Why a thread is passed over.
  abbrev pub IsPassed : Thread → Type 0
  IsPassed t =
      ((p : DaemonPerspective) × In p t.daemon_perspectives × (repeats p ≡ true)) ⊎ Answered t false

  -- Why a pollination raises.
  pub data Cause (e : Exception) : Type 0 where
    model_raised : (prompt : Prompt) (m : I) → (c.infer prompt m).0 ≡ raise e → Cause e
    store_raised :
        (t : Thread) (p : DaemonPerspective) (s : ThreadStore env)
        → (add_perspective env t.id p c.touched s).0 ≡ raise e
        → Cause e
    id_taken : (s : ScratchStore yaml) → Dict.has s.items c.note_id ≡ true → Cause e

  is_within-is_recent : (s : Stamp) → is_recent c.now c.dedup_hours s ≡ is_within s
  unfolding is_recent
  is_within-is_recent (aware t) = refl
  is_within-is_recent (naive t) = refl
  is_within-is_recent (malformed text) = refl

  has_recent_cases :
      (ps : List DaemonPerspective)
      → ((has_recent u topic c.now c.dedup_hours ps ≡ true)
          × ((p : DaemonPerspective) × In p ps × (repeats p ≡ true)))
        ⊎ ((has_recent u topic c.now c.dedup_hours ps ≡ false) × All (λ p. repeats p ≡ false) ps)
  unfolding has_recent same_topic
  has_recent_cases [] = inr (refl, tt)
  has_recent_cases (p ∷ ps) =
      let same : has_recent u topic c.now c.dedup_hours (p ∷ ps)
          ≡ repeats p || has_recent u topic c.now c.dedup_hours ps =
        ap
          (λ b.
            (same_text (to_lower u (chars p.from_fascination)) (to_lower u (chars topic)) && b)
            || has_recent u topic c.now c.dedup_hours ps)
          (is_within-is_recent p.written_at) in
      elim (Bool-cases (repeats p)) [
        | inl here ↦ inl (same ∙ (rw here refl), (p, inl refl, here))
        | inr not_here ↦ elim (has_recent_cases ps) [
          | inl (there, (q, i, h)) ↦ inl (same ∙ (rw (not_here, there) refl), (q, inr i, h))
          | inr (not_there, h) ↦ inr (same ∙ (rw (not_here, not_there) refl), (not_here, h))
        ]
      ]

  module _ (listed : List Thread) where
    -- A thread that is written to: listed, active or dormant, without a recent perspective from the
    -- topic, and relevant to it.
    abbrev pub IsChosen : Thread → Type 0
    IsChosen t =
        In t listed
        × (may_write t.status ≡ true)
        × All (λ p. repeats p ≡ false) t.daemon_perspectives
        × Answered t true

    -- What one visit leads to: nothing, or a perspective on the thread.
    pub data Visit (t : Thread) (w : World u env yaml I)
        : Outcome (Option String) → World u env yaml I → Type 0 where
      passed :
          (w' : World u env yaml I)
          → IsPassed t
          → w'.threads ≡ w.threads
          → w'.scratch ≡ w.scratch
          → Visit t w (return none) w'
      broke :
          (e : Exception) (w' : World u env yaml I)
          → Cause e
          → w'.threads ≡ w.threads
          → w'.scratch ≡ w.scratch
          → Visit t w (raise e) w'
      took :
          (response : String) (w' : World u env yaml I)
          → IsChosen t
          → w'.threads ≡ call env (adds t response) w.threads
          → w'.scratch ≡ w.scratch
          → Visit t w (return (some t.id)) w'
      failed :
          (response : String) (e : Exception) (w' : World u env yaml I)
          → Cause e
          → IsChosen t
          → w'.threads ≡ call env (adds t response) w.threads
          → w'.scratch ≡ w.scratch
          → Visit t w (raise e) w'

    abbrev Ends :
        Thread → World u env yaml I → Outcome (Option String) × World u env yaml I → Type 0
    Ends t w o = Visit t w o.0 o.1

    after_add-Visit :
        (t : Thread) (p : DaemonPerspective) (response : String) (w w₀ : World u env yaml I)
        (o : Outcome Thread × ThreadStore env)
        → IsChosen t
        → (add_perspective env t.id p c.touched w.threads).0 ≡ o.0
        → o.1 ≡ call env (adds t response) w₀.threads
        → w.scratch ≡ w₀.scratch
        → Ends t w₀ (after_add u env yaml I t o w)
    after_add-Visit t p response w w₀ (return v, threads) h r e d = took response _ h e d
    after_add-Visit t p response w w₀ (raise x, threads) h r e d =
        failed response x _ (store_raised t p w.threads r) h e d

    write_perspective-Visit :
        (t : Thread) (response : String) (w w₀ : World u env yaml I)
        → w.threads ≡ w₀.threads
        → w.scratch ≡ w₀.scratch
        → IsChosen t
        → Ends t w₀ (write_perspective u env yaml I c topic t response w)
    unfolding write_perspective new_perspective call
    write_perspective-Visit t response w w₀ e d h =
        let p = perspective_of u env yaml I c topic t response in
        let made : new_perspective p ≡ return p = rw (h.1) refl in
        subst
          (λ r. Ends t w₀ (
            after_add u env yaml I t
              (continue r (λ q. add_perspective env t.id q c.touched) w.threads) w))
          (sym made)
          (after_add-Visit t p response w w₀ (add_perspective env t.id p c.touched w.threads) h refl
            (ap (λ s. (add_perspective env t.id p c.touched s).1) e) d)

    reflect-Visit :
        (t : Thread) (thought response : String) (w w₀ : World u env yaml I) (m₀ : I)
        → w.threads ≡ w₀.threads
        → w.scratch ≡ w₀.scratch
        → In t listed
        → may_write t.status ≡ true
        → All (λ p. repeats p ≡ false) t.daemon_perspectives
        → (c.infer (relevance_prompt topic t) m₀).0 ≡ return response
        → Ends t w₀ (reflect u env yaml I c topic thought t response w)
    unfolding reflect ask says_relevant
    reflect-Visit t thought response w w₀ m₀ e d i ok fresh said =
        let m = ask u env yaml I c (reflection_prompt thought topic) in
        let f = write_perspective u env yaml I c topic t in
        elim (Bool-cases (says_relevant u response)) [
          | inr irrelevant ↦ rw irrelevant (passed w (inr (m₀, response, said, irrelevant)) e d)
          | inl relevant ↦ rw relevant (elim (Outcome-cases (m w).0) [
            | inl (x, broken) ↦
                subst (Ends t w₀) (sym (bind_raises m f w x broken))
                  (broke x _ (model_raised (reflection_prompt thought topic) w.model broken) e d)
            | inr (a, answered) ↦ subst (Ends t w₀) (sym (bind_goes m f w a answered)) (
                write_perspective-Visit t a (m w).1 w₀ e d
                  (i, ok, fresh, (m₀, response, said, relevant)))
          ])
        ]

    pub visit-Visit :
        (t : Thread) (thought : String) (w : World u env yaml I)
        → In t listed
        → may_write t.status ≡ true
        → Ends t w (visit u env yaml I c topic thought t w)
    unfolding visit ask is_duplicate
    visit-Visit t thought w i ok =
        let m = ask u env yaml I c (relevance_prompt topic t) in
        let f = reflect u env yaml I c topic thought t in
        elim (has_recent_cases t.daemon_perspectives) [
          | inl (again, repeated) ↦ rw again (passed w (inl repeated) refl refl)
          | inr (new, fresh) ↦ rw new (elim (Outcome-cases (m w).0) [
            | inl (x, broken) ↦
                subst (Ends t w) (sym (bind_raises m f w x broken))
                  (broke x _ (model_raised (relevance_prompt topic t) w.model broken) refl refl)
            | inr (a, answered) ↦
                subst (Ends t w) (sym (bind_goes m f w a answered))
                  (reflect-Visit t thought a (m w).1 w w.model refl refl i ok fresh answered)
          ])
        ]

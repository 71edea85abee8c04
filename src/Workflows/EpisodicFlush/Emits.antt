-- ===== src/Workflows/EpisodicFlush/Emits.antt =====
-- What a part of the flush may have written when it returns or raises.
use kai_daemon.Base.{
  ◌≡◌, refl, sym, ap, ◌∙◌, subst, inl, inr, List, [], ◌∷◌, ◌++◌, Option-cases, arith,
}
use mathlib.Core.List.{append_assoc, append-nil}
use kai_daemon.Base.Outcome.{
  Outcome, Exception, return, raise, Method, pure, ◌>>=◌, bind_raises, bind_goes, Outcome-cases,
  OnReturn, on_return,
}
use kai_daemon.Base.Text.{Unicode}
use kai_daemon.Workflows.EpisodicFlush.Outside.{
  Write, Callables, Flushing, Embedded, outside, emit, note_write, embed_or_null,
}

module _ {W A : Type 0} where
  -- From every state, what is written besides makes the predicate hold of the outcome.
  abbrev pub Emits : Method (Flushing W) A → (Outcome A → List Write → Type 0) → Type 0
  Emits m P =
      (s : Flushing W) → (out : List Write) × ((m s).1.written ≡ s.written ++ out) × P (m s).0 out

  -- Nothing is written, and a returned value has a property.
  abbrev pub Silent : Method (Flushing W) A → (A → Type 0) → Type 0
  Silent m V = (s : Flushing W) → ((m s).1.written ≡ s.written) × OnReturn (m s).0 V

  pub pure-Emits :
      (P : Outcome A → List Write → Type 0) (a : A) → P (return a) [] → Emits (pure a) P
  pure-Emits P a h s = ([], sym (append-nil s.written), h)

  pub outside-Silent : (m : Method W A) → Silent (outside m) (λ _. Unit)
  unfolding outside
  outside-Silent m s = elim (Outcome-cases (m s.world).0) [
    | inl (e, failed) ↦ (refl, rw failed tt)
    | inr (a, went) ↦ (refl, rw went tt)
  ]

module _ {W A B : Type 0} (m : Method (Flushing W) A) (f : A → Method (Flushing W) B) where
  pub Silent-bind :
      (V : A → Type 0) (U : B → Type 0)
      → Silent m V
      → ((a : A) → V a → Silent (f a) U)
      → Silent (m >>= f) U
  Silent-bind V U h k s = elim (Outcome-cases (m s).0) [
    | inl (e, failed) ↦
        subst (λ o. (o.1.written ≡ s.written) × OnReturn o.0 U) (sym (bind_raises m f s e failed))
          ((h s).0, tt)
    | inr (a, went) ↦
        let v : V a = subst (λ r. OnReturn r V) went (h s).1 in
        let (same, next) = k a v (m s).1 in
        subst (λ o. (o.1.written ≡ s.written) × OnReturn o.0 U) (sym (bind_goes m f s a went))
          (same ∙ (h s).0, next)
  ]

  abbrev Extends : (Outcome B → List Write → Type 0) → Flushing W → Outcome B × Flushing W → Type 0
  Extends R s o = (out : List Write) × (o.1.written ≡ s.written ++ out) × R o.0 out

  pub Emits-then :
      (P : Outcome A → List Write → Type 0) (R : Outcome B → List Write → Type 0)
      → Emits m P
      → ((e : Exception) (out : List Write) → P (raise e) out → R (raise e) out)
      → ((a : A) (out : List Write) → P (return a) out → Emits (f a) (λ r more. R r (out ++ more)))
      → Emits (m >>= f) R
  Emits-then P R h stops k s = elim (Outcome-cases (m s).0) [
    | inl (e, failed) ↦
        let (out, grown, p) = h s in
        subst (Extends R s) (sym (bind_raises m f s e failed))
          (out, grown, stops e out (subst (λ r. P r out) failed p))
    | inr (a, went) ↦
        let (out, grown, p) = h s in
        let (more, grown', r) = k a out (subst (λ r. P r out) went p) (m s).1 in
        subst (Extends R s) (sym (bind_goes m f s a went))
          (out ++ more, grown' ∙ ap (λ l. l ++ more) grown ∙ append_assoc s.written out more, r)
  ]

  pub Silent-then :
      (V : A → Type 0) (R : Outcome B → List Write → Type 0)
      → Silent m V
      → ((e : Exception) → R (raise e) [])
      → ((a : A) → V a → Emits (f a) R)
      → Emits (m >>= f) R
  Silent-then V R h stops k s = elim (Outcome-cases (m s).0) [
    | inl (e, failed) ↦
        subst (Extends R s) (sym (bind_raises m f s e failed))
          ([], (h s).0 ∙ sym (append-nil s.written), stops e)
    | inr (a, went) ↦
        let v : V a = subst (λ r. OnReturn r V) went (h s).1 in
        let (more, grown, r) = k a v (m s).1 in
        subst (Extends R s) (sym (bind_goes m f s a went))
          (more, grown ∙ ap (λ l. l ++ more) (h s).0, r)
  ]

module _ (u : Unicode) {W : Type 0} (c : Callables W) where
  -- The call of one function that writes: it returns and has written, or raises and has not.
  abbrev pub Once : Write → Outcome {0} Unit → List Write → Type 0
  Once w (return x) out = out ≡ w ∷ []
  Once w (raise e) out = out ≡ []

  note_write-Emits :
      (w : Write) (o : Outcome {0} Unit × W) (s : Flushing W)
      → (out : List Write) × ((note_write u c w o s).1.written ≡ s.written ++ out)
        × Once w (note_write u c w o s).0 out
  note_write-Emits w (return x, world) s = (w ∷ [], refl, refl)
  note_write-Emits w (raise e, world) s = ([], sym (append-nil s.written), refl)

  pub emit-Emits : (w : Write) → Emits (emit u c w) (Once w)
  unfolding emit
  emit-Emits w s = note_write-Emits w (c.write w s.world) s

  pub embed_or_null-Silent : (text : Embedded) → Silent (embed_or_null u c text) (λ _. Unit)
  unfolding embed_or_null outside
  embed_or_null-Silent text s = elim (Option-cases c.embed) [
    | inl absent ↦ (ground arith, on_return (embed_or_null u c text s).0 (λ _. Unit) (λ a e. tt))
    | inr (embed, there) ↦
        (ground arith, on_return (embed_or_null u c text s).0 (λ _. Unit) (λ a e. tt))
  ]

  -- A call that writes, and then the rest.
  pub emit-then :
      {B : Type 0} (w : Write) (f : Unit → Method (Flushing W) B)
      (R : Outcome B → List Write → Type 0)
      → ((e : Exception) → R (raise e) [])
      → Emits (f tt) (λ r more. R r (w ∷ more))
      → Emits (emit u c w >>= f) R
  emit-then w f R stops k =
      Emits-then (emit u c w) f (Once w) R (emit-Emits w)
        (λ e out h. subst (R (raise e)) (sym h) (stops e))
        (λ a out h. subst (λ o. Emits (f tt) (λ r more. R r (o ++ more))) (sym h) k)

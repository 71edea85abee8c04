-- ===== src/Workflows/HealthCheck/Signals.antt =====
-- Which signals a health check reads in an answer.
use Prim.Native.Char.{Char}
use kai_daemon.Base.{
  ◌≡◌, refl, sym, subst, ◌⊎◌, ◌↔◌, inl, inr, String, true, false, List, [], ◌∷◌, In, Bool-cases,
  arith,
}
use kai_daemon.Base.Text.{Unicode, chars, strip, to_upper, same_text}
use kai_daemon.State.DistillationMetrics.{
  DistillationSignal, convergence, flattery_drift, oscillation,
}
use kai_daemon.Workflows.HealthCheck.{add_signal, signals_of, parse_signals}

-- The line that names a signal.
abbrev pub label : DistillationSignal → String
label convergence = "CONVERGENCE"
label flattery_drift = "FLATTERY_DRIFT"
label oscillation = "OSCILLATION"

same_text_both :
    (t a b : List Char) → same_text t a ≡ true → same_text t b ≡ true → same_text a b ≡ true
unfolding same_text
same_text_both [] [] [] p q = refl
same_text_both [] [] (d ∷ b) p q = cc
same_text_both [] (c ∷ a) b p q = cc
same_text_both (e ∷ t) [] b p q = cc
same_text_both (e ∷ t) (c ∷ a) [] p q = cc
same_text_both (e ∷ t) (c ∷ a) (d ∷ b) p q = ground (arith, same_text_both t a b)

abbrev IsLabel : List Char → DistillationSignal → Type 0
IsLabel token s = same_text token (chars (label s)) ≡ true

add_signal-In :
    (token : List Char) (rest : List DistillationSignal) (s : DistillationSignal)
    → In s (add_signal token rest)
    → IsLabel token s ⊎ In s rest
unfolding add_signal
add_signal-In token rest s i = elim (Bool-cases (same_text token (chars "CONVERGENCE"))) [
  | inl c ↦ elim (let j : In s (convergence ∷ rest) = rw c at i in j) [
    | inl e ↦ inl (subst (IsLabel token) e c)
    | inr j ↦ inr j
  ]
  | inr nc ↦ elim (Bool-cases (same_text token (chars "FLATTERY_DRIFT"))) [
    | inl f ↦ elim (let j : In s (flattery_drift ∷ rest) = rw (nc, f) at i in j) [
      | inl e ↦ inl (subst (IsLabel token) e f)
      | inr j ↦ inr j
    ]
    | inr nf ↦ elim (Bool-cases (same_text token (chars "OSCILLATION"))) [
      | inl o ↦ elim (let j : In s (oscillation ∷ rest) = rw (nc, nf, o) at i in j) [
        | inl e ↦ inl (subst (IsLabel token) e o)
        | inr j ↦ inr j
      ]
      | inr nope ↦ inr (rw (nc, nf, nope) at i)
    ]
  ]
]

In-add_signal :
    (token : List Char) (rest : List DistillationSignal) (s : DistillationSignal)
    → In s rest
    → In s (add_signal token rest)
unfolding add_signal
In-add_signal token rest s i = elim (Bool-cases (same_text token (chars "CONVERGENCE"))) [
  | inl c ↦ rw c (inr i)
  | inr nc ↦ rw nc (elim (Bool-cases (same_text token (chars "FLATTERY_DRIFT"))) [
    | inl f ↦ rw f (inr i)
    | inr nf ↦ rw nf (elim (Bool-cases (same_text token (chars "OSCILLATION"))) [
      | inl o ↦ rw o (inr i)
      | inr nope ↦ rw nope i
    ])
  ])
]

IsLabel-add_signal :
    (token : List Char) (rest : List DistillationSignal) (s : DistillationSignal)
    → IsLabel token s
    → In s (add_signal token rest)
unfolding add_signal same_text chars
IsLabel-add_signal token rest convergence c = rw c (inl refl)
IsLabel-add_signal token rest flattery_drift f =
    elim (Bool-cases (same_text token (chars "CONVERGENCE"))) [
      | inl c ↦
          let both = same_text_both token (chars "CONVERGENCE") (chars "FLATTERY_DRIFT") c f in
          cc both
      | inr nc ↦ rw (nc, f) (inl refl)
    ]
IsLabel-add_signal token rest oscillation o =
    elim (Bool-cases (same_text token (chars "CONVERGENCE"))) [
      | inl c ↦
          let both = same_text_both token (chars "CONVERGENCE") (chars "OSCILLATION") c o in cc both
      | inr nc ↦ elim (Bool-cases (same_text token (chars "FLATTERY_DRIFT"))) [
        | inl f ↦
            let both = same_text_both token (chars "FLATTERY_DRIFT") (chars "OSCILLATION") f o in
            cc both
        | inr nf ↦ rw (nc, nf, o) (inl refl)
      ]
    ]

module _ (u : Unicode) where
  -- One of the lines is the label of the signal, but for white space and case.
  abbrev pub IsNamed : List (List Char) → DistillationSignal → Type 0
  IsNamed lines s =
      (line : List Char) × In line lines
      × (same_text (to_upper u (strip u.is_space line)) (chars (label s)) ≡ true)

  signals_of-IsNamed :
      (lines : List (List Char)) (s : DistillationSignal)
      → In s (signals_of u lines)
      → IsNamed lines s
  unfolding signals_of
  signals_of-IsNamed [] s i = elim i [ ]
  signals_of-IsNamed (line ∷ lines) s i =
      elim (add_signal-In (to_upper u (strip u.is_space line)) (signals_of u lines) s i) [
        | inl here ↦ (line, inl refl, here)
        | inr j ↦ let (l, there, named) = signals_of-IsNamed lines s j in (l, inr there, named)
      ]

  IsNamed-signals_of :
      (lines : List (List Char)) (s : DistillationSignal)
      → IsNamed lines s
      → In s (signals_of u lines)
  unfolding signals_of
  IsNamed-signals_of [] s (l, i, named) = elim i [ ]
  IsNamed-signals_of (line ∷ lines) s (l, inl e, named) =
      IsLabel-add_signal (to_upper u (strip u.is_space line)) (signals_of u lines) s
        (subst (λ x. IsLabel (to_upper u (strip u.is_space x)) s) (sym e) named)
  IsNamed-signals_of (line ∷ lines) s (l, inr i, named) =
      In-add_signal (to_upper u (strip u.is_space line)) (signals_of u lines) s
        (IsNamed-signals_of lines s (l, i, named))

  -- The signals of an answer: none where it says that all is well, else those that a line names.
  abbrev pub AreTold : (List Char → List (List Char)) → String → List DistillationSignal → Type 0
  AreTold split_lines answer signals =
      (s : DistillationSignal)
      → In s signals ↔ (
          (same_text (to_upper u (strip u.is_space (chars answer))) (chars "HEALTHY") ≡ false)
          × IsNamed (split_lines (strip u.is_space (chars answer))) s)

  pub parse_signals-AreTold :
      (split_lines : List Char → List (List Char)) (answer : String)
      → AreTold split_lines answer (parse_signals u split_lines answer)
  unfolding parse_signals
  parse_signals-AreTold split_lines answer s =
      let lines = split_lines (strip u.is_space (chars answer)) in
      elim (Bool-cases
        (same_text (to_upper u (strip u.is_space (chars answer))) (chars "HEALTHY"))) [
          | inl well ↦ rw well (λ i. elim i [ ], λ p. cc p.0)
          | inr ill ↦
              rw ill
                (λ i. (refl, signals_of-IsNamed lines s i), λ p. IsNamed-signals_of lines s p.1)
        ]

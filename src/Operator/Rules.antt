-- ===== src/Operator/Rules.antt =====
-- An ordered list of conditions, each with the error that a verifier returns where it is the first
-- to fail.
use sohocloud_protocol.Prelude.{
  ◌≡◌, ◌≢◌, ◌↔◌, ◌⊎◌, inl, inr, refl, sym, Bool, true, false, List, [], ◌∷◌, ◌++◌, if◌then◌else◌,
}
use sohocloud_protocol.Operator.Keys.{
  Verdict, OperatorError, accepted, rejected, panicked, and_then,
}

abbrev pub Rules : Type 1
Rules = List (Type 0 × OperatorError)

-- All conditions hold.
abbrev pub AllHold : Rules → Type 0
AllHold [] = Unit {0}
AllHold ((P, e) ∷ rules) = P × AllHold rules

-- The first condition that fails has the error.
abbrev pub FirstBroken : Rules → OperatorError → Type 0
FirstBroken [] e = ⊥
FirstBroken ((P, broken) ∷ rules) e = ((P → ⊥) × (broken ≡ e)) ⊎ (P × FirstBroken rules e)

-- A verdict by the rules: it accepts exactly if all hold, it rejects with exactly the error of the
-- first that fails, and it is no panic.
pub record Judged (v : Verdict) (rules : Rules) : Type 0 where
  pub accepts : (v ≡ accepted) ↔ AllHold rules
  pub rejects : (e : OperatorError) → (v ≡ rejected e) ↔ FirstBroken rules e
  pub returns : v ≢ panicked

accepted-ne-rejected : (e : OperatorError) → accepted ≢ rejected e
accepted-ne-rejected e h = cc

rejected_inj : (e e' : OperatorError) → rejected e ≡ rejected e' → e ≡ e'
rejected_inj e e' h = cc

pub no_rules : Judged accepted []
no_rules = record {
  accepts = (λ h. tt, λ h. refl);
  rejects = λ e. (λ h. cc, λ h. absurd h);
  returns = λ h. cc;
}

-- `if test { return e }; v`
pub guard-Judged :
    (test : Bool) (P : Type 0) (e : OperatorError) (v : Verdict) (rules : Rules)
    → (test ≡ false) ↔ P
    → (P → Judged v rules)
    → Judged (if test then rejected e else v) ((P, e) ∷ rules)
guard-Judged true P e v rules t h =
    let fails : P → ⊥ = λ p. cc (t.1 p) in
    record {
      accepts = (λ k. cc, λ k. absurd (fails k.0));
      rejects = λ e'. (
        λ k. inl (fails, rejected_inj e e' k),
        λ k. elim k [ inl (_, s) ↦ rw s refl | inr (p, _) ↦ absurd (fails p) ],
      );
      returns = λ k. cc;
    }
guard-Judged false P e v rules t h =
    let p = t.0 refl in
    let j = h p in
    record {
      accepts = (λ k. (p, j.accepts.0 k), λ k. j.accepts.1 k.1);
      rejects = λ e'. (
        λ k. inr (p, (j.rejects e').0 k),
        λ k. elim k [ inl (n, _) ↦ absurd (n p) | inr (_, b) ↦ (j.rejects e').1 b ],
      );
      returns = j.returns;
    }

AllHold-append : (r s : Rules) → AllHold (r ++ s) ↔ (AllHold r × AllHold s)
AllHold-append [] s = (λ h. (tt, h), λ h. h.1)
AllHold-append ((P, e) ∷ r) s =
    let rest = AllHold-append r s in
    (λ h. ((h.0, (rest.0 h.1).0), (rest.0 h.1).1), λ h. (h.0.0, rest.1 (h.0.1, h.1)))

FirstBroken-append :
    (r s : Rules) (e : OperatorError)
    → FirstBroken (r ++ s) e ↔ (FirstBroken r e ⊎ (AllHold r × FirstBroken s e))
FirstBroken-append [] s e = (λ h. inr (tt, h), λ h. elim h [ inl b ↦ absurd b | inr (_, b) ↦ b ])
FirstBroken-append ((P, broken) ∷ r) s e =
    let rest = FirstBroken-append r s e in
    (
      λ h. elim h [
        | inl b ↦ inl (inl b)
        | inr (p, b) ↦ elim (rest.0 b) [
          | inl here ↦ inl (inr (p, here))
          | inr (all, there) ↦ inr ((p, all), there)
        ]
      ],
      λ h. elim h [
        | inl (inl b) ↦ inl b
        | inl (inr (p, b)) ↦ inr (p, rest.1 (inl b))
        | inr ((p, all), b) ↦ inr (p, rest.1 (inr (all, b)))
      ],
    )

-- `if err := v; err != nil { return err }; w`
pub and_then-Judged :
    (v w : Verdict) (r s : Rules)
    → Judged v r
    → (AllHold r → Judged w s)
    → Judged (and_then v w) (r ++ s)
and_then-Judged accepted w r s j k =
    let all = j.accepts.0 refl in
    let n = k all in
    record {
      accepts = (
        λ h. (AllHold-append r s).1 (all, n.accepts.0 h),
        λ h. n.accepts.1 ((AllHold-append r s).0 h).1,
      );
      rejects = λ e. (
        λ h. (FirstBroken-append r s e).1 (inr (all, (n.rejects e).0 h)),
        λ h. elim ((FirstBroken-append r s e).0 h) [
          | inl b ↦ absurd (accepted-ne-rejected e ((j.rejects e).1 b))
          | inr (_, b) ↦ (n.rejects e).1 b
        ],
      );
      returns = n.returns;
    }
and_then-Judged (rejected broken) w r s j k = record {
  accepts = (
    λ h. cc,
    λ h. absurd (accepted-ne-rejected broken (sym (j.accepts.1 ((AllHold-append r s).0 h).0))),
  );
  rejects = λ e. (
    λ h. (FirstBroken-append r s e).1 (inl ((j.rejects e).0 h)),
    λ h. elim ((FirstBroken-append r s e).0 h) [
      | inl b ↦ (j.rejects e).1 b
      | inr (all, _) ↦ absurd (accepted-ne-rejected broken (sym (j.accepts.1 all)))
    ],
  );
  returns = j.returns;
}
and_then-Judged panicked w r s j k = absurd (j.returns refl)

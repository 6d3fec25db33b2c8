-- ===== src/Prism/Order.antt =====
-- The fingerprint of an event does not depend on the order of its violations (pkg/prism/governance/dedup.go).
use mathlib.Core.Logic.{∥∥₁_elim}
use mathlib.Core.List.{Permᴰ, Perm}
use tickraft.Base.{◌≡◌, refl, ◌∙◌, ap, true, false, List, [], ◌∷◌, arith}
use tickraft.Cron.Text.{Text}
use tickraft.Prism.{
  Violation, Event, leb_text, put_in_order, sort_texts, violation_part, violation_parts,
  fingerprint,
}

leb_text_total : (s t : Text) → leb_text s t ≡ false → leb_text t s ≡ true
unfolding leb_text
leb_text_total [] t h = absurd (cc)
leb_text_total (c ∷ s) [] h = refl
leb_text_total (c ∷ s) (d ∷ t) h = ground (arith, leb_text_total s t)

leb_text_antisym : (s t : Text) → leb_text s t ≡ true → leb_text t s ≡ true → s ≡ t
unfolding leb_text
leb_text_antisym [] [] h k = refl
leb_text_antisym [] (d ∷ t) h k = absurd (cc)
leb_text_antisym (c ∷ s) [] h k = absurd (cc)
leb_text_antisym (c ∷ s) (d ∷ t) h k =
    let same : c ≡ d = ground arith in
    let rest : s ≡ t = leb_text_antisym s t (ground arith) (ground arith) in cc

leb_text_trans : (s t u : Text) → leb_text s t ≡ true → leb_text t u ≡ true → leb_text s u ≡ true
unfolding leb_text
leb_text_trans [] t u h k = refl
leb_text_trans (c ∷ s) [] u h k = absurd (cc)
leb_text_trans (c ∷ s) (d ∷ t) [] h k = absurd (cc)
leb_text_trans (c ∷ s) (d ∷ t) (e ∷ u) h k = ground (arith, leb_text_trans s t u)

put_in_order_swap :
    (s t : Text) (us : List Text)
    → put_in_order s (put_in_order t us) ≡ put_in_order t (put_in_order s us)
unfolding put_in_order
put_in_order_swap s t [] =
    ground (arith, leb_text_total s t, leb_text_total t s, leb_text_antisym s t)
put_in_order_swap s t (u ∷ us) = ground (
  arith,
  leb_text_total s t,
  leb_text_total t s,
  leb_text_antisym s t,
  leb_text_trans s t u,
  leb_text_trans t s u,
  leb_text_total s u,
  leb_text_total t u,
  put_in_order_swap s t us,
)

sort_texts-Permᴰ :
    (vs ws : List Violation)
    → Permᴰ vs ws
    → sort_texts (violation_parts vs) ≡ sort_texts (violation_parts ws)
unfolding sort_texts violation_parts
sort_texts-Permᴰ _ _ Permᴰ.nil = refl
sort_texts-Permᴰ (v ∷ vs) (w ∷ ws) (Permᴰ.cons e p) =
    rw e (ap (put_in_order (violation_part w)) (sort_texts-Permᴰ vs ws p))
sort_texts-Permᴰ (v ∷ w ∷ vs) (w' ∷ v' ∷ _) (Permᴰ.swap e f) = rw e (
    rw f
      (put_in_order_swap (violation_part v') (violation_part w') (sort_texts (violation_parts vs))))
sort_texts-Permᴰ vs ws (Permᴰ.trans {l₂ = us} p q) =
    sort_texts-Permᴰ vs us p ∙ sort_texts-Permᴰ us ws q

-- Events that differ in the order of their violations only have the same fingerprint.
pub fingerprint-Perm :
    (e : Event) (ws : List Violation)
    → Perm e.violations ws
    → fingerprint (record e { violations = ws }) ≡ fingerprint e
unfolding fingerprint
fingerprint-Perm e ws p = ∥∥₁_elim p (hlevel) (λ d. rw (sort_texts-Permᴰ e.violations ws d) refl)

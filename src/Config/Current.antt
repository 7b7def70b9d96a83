-- ===== src/Config/Current.antt =====
-- Fields that a migration has set need none.
use multi_send.Base.{
  ◌≡◌, refl, ap, ◌∙◌, Bool, true, false, ◌||◌, not, List, [], ◌∷◌, ◌++◌, ◌⊎◌, Option, none, some,
  if◌then◌else◌, arith, Bool-cases, inl, inr,
}
use multi_send.Base.Int.{ℤ, pos}
use multi_send.Base.Text.{trim_space, Text, txt, same_text, same_text_iff}
use multi_send.Ports.{Range}
use multi_send.Config.{
  folded, normalize_interface_policy, normalize_download_pipeline_mode,
  normalize_download_channel_strategy, normalize_pull_folder_result, is_blank,
}
use multi_send.Config.Legacy.{
  range_or, percentage_or, positive_or, selected_or, is_old, is_nil, is_zero, is_unset, is_changed,
  has_unknown, is_not_positive, is_bad_percentage, or_empty, port_or, with_unknown,
}

pub new_version : (v : ℤ) → is_old (if is_old v then pos 4 else v) ≡ false
new_version v = ground arith

pub secret_kept :
    (fresh s : Text) → is_blank fresh ≡ false → is_blank (if is_blank s then fresh else s) ≡ false
secret_kept fresh s h = elim (Bool-cases (is_blank s)) [ inl e ↦ rw e h | inr e ↦ rw e e ]

pub not_nil : (o : Option (List Text)) → is_nil (or_empty o) ≡ false
not_nil none = refl
not_nil (some s) = refl

pub range_kept : (d r : Range) → is_unset d ≡ false → is_unset (range_or d r) ≡ false
range_kept d r h = elim (Bool-cases (is_unset r)) [ inl e ↦ rw e h | inr e ↦ rw e e ]

pub selected_kept :
    (selected port start : ℤ)
    → is_zero start ≡ false
    → is_zero (selected_or selected port start) ≡ false
selected_kept selected port start h = elim (Bool-cases (is_zero selected)) [
  | inl e ↦ elim (Bool-cases (is_zero port)) [ inl q ↦ rw (e, q) h | inr q ↦ rw (e, q) q ]
  | inr e ↦ rw e e
]

pub start_set : (r : Range) → is_unset r ≡ false → is_zero r.start ≡ false
start_set r h = ground arith

pub positive_kept :
    (d n : ℤ) → is_not_positive d ≡ false → is_not_positive (positive_or d n) ≡ false
positive_kept d n h = elim (Bool-cases (is_not_positive n)) [ inl e ↦ rw e h | inr e ↦ rw e e ]

pub percentage_kept : (n : ℤ) → is_bad_percentage (percentage_or (pos 50) n) ≡ false
percentage_kept n = elim (Bool-cases (is_bad_percentage n)) [ inl e ↦ rw e refl | inr e ↦ rw e e ]

has_unknown-snoc : (ts : List Text) → has_unknown (ts ++ txt "unknown" ∷ []) ≡ true
unfolding has_unknown
has_unknown-snoc [] = unfold same_text in refl
has_unknown-snoc (t ∷ ts) = ground (arith, has_unknown-snoc ts)

pub types_kept :
    (def ts : List Text) → has_unknown def ≡ true → not (has_unknown (with_unknown def ts)) ≡ false
types_kept def [] h = rw h refl
types_kept def (t ∷ ts) h = elim (Bool-cases (has_unknown (t ∷ ts))) [
  | inl e ↦ rw (e, e) refl
  | inr e ↦ rw (e, has_unknown-snoc (t ∷ ts)) refl
]

-- An interface policy is one of three.
policy_lem :
    (v : Text)
    → (normalize_interface_policy v ≡ txt "manual")
      ⊎ ((normalize_interface_policy v ≡ txt "all") ⊎ (normalize_interface_policy v ≡ txt "auto"))
unfolding normalize_interface_policy
policy_lem v = elim (Bool-cases (same_text (folded v) (txt "manual"))) [
  | inl m ↦ inl (rw m ((same_text_iff (folded v) (txt "manual")).0 m))
  | inr m ↦ elim (Bool-cases (same_text (folded v) (txt "all"))) [
    | inl a ↦ inr (inl (rw (m, a) ((same_text_iff (folded v) (txt "all")).0 a)))
    | inr a ↦ inr (inr (rw (m, a) refl))
  ]
]

abbrev needs_policy : Text → Bool
needs_policy v = is_blank v || is_changed normalize_interface_policy v

pub policy_kept : (v : Text) → needs_policy (normalize_interface_policy v) ≡ false
policy_kept v = elim (policy_lem v) [
  | inl e ↦ ap needs_policy e ∙ (unfold normalize_interface_policy same_text trim_space in refl)
  | inr (inl e) ↦
      ap needs_policy e ∙ (unfold normalize_interface_policy same_text trim_space in refl)
  | inr (inr e) ↦
      ap needs_policy e ∙ (unfold normalize_interface_policy same_text trim_space in refl)
]

pub mode_kept :
    (v : Text)
    → is_changed normalize_download_pipeline_mode (normalize_download_pipeline_mode v) ≡ false
unfolding normalize_download_pipeline_mode
mode_kept v = elim (Bool-cases (same_text (folded v) (txt "pipelined"))) [
  | inl e ↦ rw e (unfold same_text trim_space in refl)
  | inr e ↦ rw e (unfold same_text trim_space in refl)
]

pub port_or_twice :
    (port selected : ℤ) → port_or (port_or port selected) selected ≡ port_or port selected
port_or_twice port selected = ground arith

pub strategy_kept :
    (v : Text)
    → is_changed normalize_download_channel_strategy (normalize_download_channel_strategy v) ≡ false
unfolding normalize_download_channel_strategy
strategy_kept v = elim (Bool-cases (same_text (folded v) (txt "strict_split"))) [
  | inl e ↦ rw e (unfold same_text trim_space in refl)
  | inr e ↦ rw e (unfold same_text trim_space in refl)
]

pub result_kept :
    (v : Text) → is_changed normalize_pull_folder_result (normalize_pull_folder_result v) ≡ false
unfolding normalize_pull_folder_result
result_kept v = elim (Bool-cases (same_text (folded v) (txt "extract"))) [
  | inl e ↦ rw e (unfold same_text trim_space in refl)
  | inr e ↦ rw e (unfold same_text trim_space in refl)
]

-- ===== src/Interfaces/Usable.antt =====
-- What DetectUsableInterfaces calls usable.
use multi_send.Base.{
  subst, sym, ◌≢◌, ◌⊎◌, ◌≡◌, refl, Bool, true, false, List, [], ◌∷◌, Option, none, some, Bool-cases,
  inl, inr, All, ◌++◌, ap,
}
use multi_send.Config.{Config}
use multi_send.Interfaces.{
  classify_type, Ipv4, Interface, InterfaceInfo, is_unusable, first_usable_ipv4,
  should_ignore_by_name, is_allowed_by_policy, by_policy, by_address, by_addrs, inspect,
}

abbrev pub IsRefused : Bool → Option Ipv4 → Type 0
IsRefused ignore o = (o ≡ none) ⊎ ((ip : Ipv4) × (o ≡ some ip) × (is_unusable ignore ip ≡ true))

-- The first address of a list that is usable: all before it are nil or refused.
abbrev pub IsFirst : Bool → List (Option Ipv4) → Ipv4 → Type 0
IsFirst ignore addrs ip =
    (before : List (Option Ipv4)) × (after : List (Option Ipv4)) × (addrs
      ≡ before ++ some ip ∷ after)
    × All (IsRefused ignore) before
    × (is_unusable ignore ip ≡ false)

IsFirst-later :
    (ignore : Bool) (o : Option Ipv4) (addrs : List (Option Ipv4)) (ip : Ipv4)
    → IsRefused ignore o
    → IsFirst ignore addrs ip
    → IsFirst ignore (o ∷ addrs) ip
IsFirst-later ignore o addrs ip r (before, after, e, all, usable) =
    (o ∷ before, after, ap (λ s. o ∷ s) e, (r, all), usable)

first_usable_ipv4-IsFirst :
    (ignore : Bool) (addrs : List (Option Ipv4)) (ip : Ipv4)
    → first_usable_ipv4 ignore addrs ≡ some ip
    → IsFirst ignore addrs ip
unfolding first_usable_ipv4
first_usable_ipv4-IsFirst ignore [] ip e = absurd (cc)
first_usable_ipv4-IsFirst ignore (none ∷ addrs) ip e =
    IsFirst-later ignore none addrs ip (inl refl) (first_usable_ipv4-IsFirst ignore addrs ip e)
first_usable_ipv4-IsFirst ignore (some x ∷ addrs) ip e = elim (Bool-cases (is_unusable ignore x)) [
  | inl u ↦
      IsFirst-later ignore (some x) addrs ip (inr (x, refl, u))
        (first_usable_ipv4-IsFirst ignore addrs ip (let e' = rw u at e in e'))
  | inr u ↦
      let e' = rw u at e in
      let same : x ≡ ip = cc in
      subst (IsFirst ignore (some x ∷ addrs)) same ([], addrs, refl, tt, u)
]

-- The address is the first usable one of those of the interface.
abbrev pub HasAddress : Config → Interface → Ipv4 → Type 0
HasAddress cfg ifc ip =
    (addrs : List (Option Ipv4)) × (ifc.addrs ≡ some addrs) × IsFirst cfg.ignore_link_local addrs ip

-- An interface that may be used.
abbrev pub IsUsable : Config → Interface → InterfaceInfo → Type 0
IsUsable cfg ifc info =
    (ifc.is_up ≡ true)
    × (ifc.is_loopback ≡ false)
    × (should_ignore_by_name cfg ifc.name ≡ false)
    × ((ip : Ipv4) × (info.ipv4 ≡ some ip) × HasAddress cfg ifc ip)
    × (is_allowed_by_policy cfg info ≡ true)

abbrev pub IsJudged : Config → Interface → InterfaceInfo → Type 0
IsJudged cfg ifc info =
    ((info.is_usable ≡ true) × IsUsable cfg ifc info)
    ⊎ ((info.is_usable ≡ false) × (info.ignore_reason ≢ []))

by_policy-IsJudged :
    (cfg : Config) (ifc : Interface) (info : InterfaceInfo) (ip : Ipv4)
    → ifc.is_up ≡ true
    → ifc.is_loopback ≡ false
    → should_ignore_by_name cfg ifc.name ≡ false
    → info.ipv4 ≡ some ip
    → HasAddress cfg ifc ip
    → info.is_usable ≡ false
    → IsJudged cfg ifc (by_policy cfg info)
unfolding is_allowed_by_policy
by_policy-IsJudged cfg ifc info ip up loop name at usable off =
    elim (Bool-cases (is_allowed_by_policy cfg info)) [
      | inl p ↦
          let e : by_policy cfg info ≡ record info { is_usable = true } = simp p refl in
          subst (IsJudged cfg ifc) (sym e) (inl (refl, (up, loop, name, (ip, at, usable), p)))
      | inr p ↦ simp p (inr (off, (λ e. cc)))
    ]

-- DetectUsableInterfaces calls an interface usable only if it is up, is no loopback, has no ignored
-- name, is allowed by the policy, and the address given for it is the first of its addresses that is
-- no loopback address and not unspecified, nor link-local where those are ignored. It gives a reason
-- for every other interface.
pub inspect-IsJudged : (cfg : Config) (ifc : Interface) → IsJudged cfg ifc (inspect cfg ifc)
unfolding inspect
inspect-IsJudged cfg ifc = elim (Bool-cases ifc.is_up) [
  | inr u ↦ simp u (inr (refl, (λ e. cc)))
  | inl u ↦ elim (Bool-cases ifc.is_loopback) [
    | inl k ↦ simp (u, k) (inr (refl, (λ e. cc)))
    | inr k ↦ elim (Bool-cases (should_ignore_by_name cfg ifc.name)) [
      | inl n ↦ simp (u, k, n) (inr (refl, (λ e. cc)))
      | inr n ↦
          let e : inspect cfg ifc ≡ by_addrs ifc.addrs cfg info = simp (u, k, n) refl in
          subst (IsJudged cfg ifc) (sym e) (by_all ifc.addrs refl u k n)
    ]
  ]
]
  where
    info : InterfaceInfo
    info = record {
      name = ifc.name;
      type = classify_type ifc.name;
      ipv4 = none;
      is_usable = false;
      ignore_reason = [];
    }

    by_first :
        (o : Option Ipv4)
        → ((ip : Ipv4) → o ≡ some ip → HasAddress cfg ifc ip)
        → ifc.is_up ≡ true
        → ifc.is_loopback ≡ false
        → should_ignore_by_name cfg ifc.name ≡ false
        → IsJudged cfg ifc (by_address o cfg info)
    by_first none f u k n = inr (refl, (λ e. cc))
    by_first (some ip) f u k n =
        by_policy-IsJudged cfg ifc (record info { ipv4 = some ip }) ip u k n refl (f ip refl) refl

    by_all :
        (o : Option (List (Option Ipv4)))
        → ifc.addrs ≡ o
        → ifc.is_up ≡ true
        → ifc.is_loopback ≡ false
        → should_ignore_by_name cfg ifc.name ≡ false
        → IsJudged cfg ifc (by_addrs o cfg info)
    by_all none e u k n = inr (refl, (λ e. cc))
    by_all (some addrs) e u k n =
        by_first (first_usable_ipv4 cfg.ignore_link_local addrs)
          (λ ip q. (addrs, e, first_usable_ipv4-IsFirst cfg.ignore_link_local addrs ip q)) u k n

-- ===== src/Resolve/Parity.antt =====
-- That `_rejection` names the clause by which `_applies` refuses a method, and that
-- `unavailable_reason` speaks only where Homebrew would not help.
use tools_installer.Base.{
  String, Bool, true, false, Option, none, some, List, [], ◌∷◌, ◌≡◌, refl, ◌≢◌, arith, filter, any,
  All, length, length-sorted, Bool-cases, inl, inr, if◌then◌else◌, sorted, ◌==◌, eq_iff, ap, sym,
  ◌⊎◌, ◌&&◌, ◌||◌, ◌∙◌, not, is_some,
}
use tools_installer.Model.{Kind, dnf, apt, pacman, rpm_ostree, brew, cask, Method, Tool}
use tools_installer.Platform.{Platform}
use tools_installer.Resolve.{
  excludes, below_floor, kind_applies, applies, resolve_methods, rejection, is_native,
  is_rpm_ostree, with_brew, non_empty, platform_could_support, Category, os, arch, min_os_version,
  immutable,
}
use tools_installer.Resolve.Ladder.{ladder}
use tools_installer.Resolve.Reason.{UnavailableReason, unavailable_reason}

-- The one system that a kind of method is for, if there is one.
abbrev pub home : Kind → Option String
home cask = some "macos"
home dnf = some "fedora"
home apt = some "debian"
home pacman = some "arch"
home _ = none

-- The kind is for another system.
abbrev pub Foreign : Kind → Platform → Type 0
Foreign k p = (o : String) × (home k ≡ some o) × (p.os ≢ o)

-- A kind that an immutable host refuses, or any host
abbrev pub on_immutable : Kind → Platform → Bool
on_immutable k p = is_rpm_ostree k || (is_native k && p.immutable)

-- What a category says of a method on a platform.
abbrev pub Explains : Category → Method → Platform → Type 0
Explains os m p =
    (excludes m.os p.os ≡ true)
    ⊎ (excludes m.os p.os ≡ false)
      × (excludes m.arch p.arch ≡ false)
      × (below_floor m p ≡ false)
      × (on_immutable m.kind p ≡ false)
      × Foreign m.kind p
Explains arch m p = (excludes m.os p.os ≡ false) × (excludes m.arch p.arch ≡ true)
Explains min_os_version m p =
    (excludes m.os p.os ≡ false) × (excludes m.arch p.arch ≡ false) × (below_floor m p ≡ true)
Explains immutable m p =
    (excludes m.os p.os ≡ false)
    × (excludes m.arch p.arch ≡ false)
    × (below_floor m p ≡ false)
    × ((m.kind ≡ rpm_ostree) ⊎ ((is_native m.kind ≡ true) × (p.immutable ≡ true)))

-- The categories that a refusal by the kind can have.
abbrev KindExplains : Bool → Kind → Platform → Type 0
KindExplains true k p = (k ≡ rpm_ostree) ⊎ ((is_native k ≡ true) × (p.immutable ≡ true))
KindExplains false k p = Foreign k p

apart : (x y : String) → (x == y) ≡ false → y ≢ x
apart x y h = λ same. ground (arith, eq_iff x y, same)

native_refused :
    (k : Kind) (p : Platform) (o : String)
    → home k ≡ some o
    → is_native k ≡ true
    → (if p.immutable then false else o == p.os) ≡ false
    → KindExplains p.immutable k p
native_refused k p o h native r = elim (Bool-cases p.immutable) [
  | inl holds ↦ rw holds (inr (native, refl))
  | inr fails ↦ rw fails (o, h, apart o p.os (ground arith))
]

kind_refused :
    (k : Kind) (p : Platform)
    → kind_applies k (with_brew p) ≡ false
    → KindExplains (on_immutable k p) k p
unfolding kind_applies with_brew is_native
kind_refused dnf p h = native_refused dnf p "fedora" refl refl h
kind_refused apt p h = native_refused apt p "debian" refl refl h
kind_refused pacman p h = native_refused pacman p "arch" refl refl h
kind_refused rpm_ostree p h = inl refl
kind_refused cask p h = ("macos", refl, λ mac. ground (arith, mac, eq_iff p.os "macos"))
kind_refused _ p h = ground arith

below_floor-with_brew : (m : Method) (p : Platform) → below_floor m (with_brew p) ≡ below_floor m p
unfolding below_floor with_brew
below_floor-with_brew m p = refl

kind_category :
    (m : Method) (p : Platform)
    → excludes m.os p.os ≡ false
    → excludes m.arch p.arch ≡ false
    → below_floor m p ≡ false
    → (refused : Bool) → on_immutable m.kind p ≡ refused
    → KindExplains refused m.kind p
    → Explains (if refused then immutable else os) m p
kind_category m p here built new true r e = (here, built, new, e)
kind_category m p here built new false r e = inr (here, built, new, r, e)

-- `_rejection` names the clause of `_applies` by which a method is refused where Homebrew is
-- present, and the first of them: `os` where the method's `os` excludes the host, or where no clause
-- before it refuses the method and its kind is for another system; `arch` and `min_os_version` where
-- those exclude it and nothing before does; `immutable` where none of these three does, and the kind
-- is `rpm_ostree`, or a native manager of any system while the host is immutable.
pub rejection-Explains :
    (m : Method) (p : Platform)
    → applies m (with_brew p) ≡ false
    → Explains (rejection m (with_brew p)) m p
unfolding applies with_brew rejection
rejection-Explains m p h = elim (Bool-cases (excludes m.os p.os)) [
  | inl holds ↦ rw holds (inl holds)
  | inr here ↦ elim (Bool-cases (excludes m.arch p.arch)) [
    | inl holds ↦ rw (here, holds) (here, holds)
    | inr built ↦ elim (Bool-cases (below_floor m p)) [
      | inl holds ↦ rw (here, built, below_floor-with_brew m p, holds) (here, built, holds)
      | inr new ↦
          let refused = kind_refused m.kind p (ground (arith, below_floor-with_brew m p)) in
          rw (here, built, below_floor-with_brew m p, new)
            (kind_category m p here built new (on_immutable m.kind p) refl refused)
    ]
  ]
]

non_empty-filter :
    (p : Platform) (ms : List Method)
    → non_empty (filter (λ m. applies m p) ms) ≡ any (λ m. applies m p) ms
unfolding non_empty
non_empty-filter p [] = refl
non_empty-filter p (m ∷ ms) = ground (arith, non_empty-filter p ms)

non_empty-length : (ms ns : List Method) → length ms ≡ length ns → non_empty ms ≡ non_empty ns
unfolding non_empty
non_empty-length [] [] h = refl
non_empty-length [] (n ∷ ns) h = ground arith
non_empty-length (m ∷ ms) [] h = ground arith
non_empty-length (m ∷ ms) (n ∷ ns) h = refl

applicable :
    (tool : Tool) (p : Platform)
    → non_empty (resolve_methods tool p) ≡ any (λ m. applies m p) tool.methods
unfolding resolve_methods
applicable tool p =
    let found = filter (λ m. applies m p) tool.methods in
    non_empty-length (sorted ladder found) found (length-sorted ladder found)
    ∙ non_empty-filter p tool.methods

supported :
    (tool : Tool) (p : Platform)
    → platform_could_support tool p ≡ any (λ m. applies m (with_brew p)) tool.methods
unfolding platform_could_support
supported tool p = applicable tool (with_brew p)

kind_mono :
    (k : Kind) (p : Platform) → kind_applies k p ≡ true → kind_applies k (with_brew p) ≡ true
unfolding kind_applies with_brew
kind_mono dnf p h = h
kind_mono apt p h = h
kind_mono pacman p h = h
kind_mono rpm_ostree p h = h
kind_mono brew p h = refl
kind_mono cask p h = ground arith
kind_mono _ p h = refl

applies_mono : (m : Method) (p : Platform) → applies m p ≡ true → applies m (with_brew p) ≡ true
unfolding applies with_brew
applies_mono m p h = ground (arith, below_floor-with_brew m p, kind_mono m.kind p)

any_mono :
    (p : Platform) (ms : List Method)
    → any (λ m. applies m p) ms ≡ true
    → any (λ m. applies m (with_brew p)) ms ≡ true
any_mono p [] h = h
any_mono p (m ∷ ms) h = ground (arith, applies_mono m p, any_mono p ms)

refused-Explains :
    (p : Platform) (ms : List Method)
    → any (λ m. applies m (with_brew p)) ms ≡ false
    → All (λ m. Explains (rejection m (with_brew p)) m p) ms
refused-Explains p [] h = tt
refused-Explains p (m ∷ ms) h =
    (rejection-Explains m p (ground arith), refused-Explains p ms (ground arith))

speaks :
    (tool : Tool) (p : Platform)
    → is_some (unavailable_reason tool p) ≡ not (platform_could_support tool p)
unfolding unavailable_reason
speaks tool p = elim (Bool-cases (platform_could_support tool p)) [
  | inl holds ↦ rw holds refl
  | inr fails ↦ rw fails refl
]

not_speaking :
    (tool : Tool) (p : Platform)
    → platform_could_support tool p ≡ true
    → unavailable_reason tool p ≡ none
unfolding unavailable_reason
not_speaking tool p h = rw h refl

-- `unavailable_reason` is silent just where some method applies once Homebrew is present, so it is
-- silent about every tool for which `resolve_methods` returns a method now. Where it speaks,
-- `_rejection` names for every method of the tool the clause of `_applies` that refuses it.
pub unavailable_reason-exact :
    (tool : Tool) (p : Platform)
    → (is_some (unavailable_reason tool p) ≡ not (any (λ m. applies m (with_brew p)) tool.methods))
      × (non_empty (resolve_methods tool p) ≡ true → unavailable_reason tool p ≡ none)
      × ((reason : UnavailableReason)
          → unavailable_reason tool p ≡ some reason
          → All (λ m. Explains (rejection m (with_brew p)) m p) tool.methods)
unavailable_reason-exact tool p = (
  ground (arith, speaks tool p, supported tool p),
  λ found.
      not_speaking tool p
        (supported tool p ∙ any_mono p tool.methods (sym (applicable tool p) ∙ found)),
  λ reason spoken.
      refused-Explains p tool.methods
        (ground (arith, speaks tool p, supported tool p, spoken, ap is_some spoken)),
)

-- ===== src/Resolve/Ladder.antt =====
-- What `resolve_methods` returns: methods that suit the host, in the order of the ladder.
use tools_installer.Base.{
  ℕ, String, true, false, List, [], ◌∷◌, ◌≡◌, arith, filter, All, Bool-cases, inl, inr,
  if◌then◌else◌, sorted-All, IsSorted, sorted-IsSorted, of_key, sorted-of_key, ◌==◌, eq_iff, sym,
}
use tools_installer.Model.{Kind, dnf, apt, pacman, rpm_ostree, brew, cask, Method, Tool}
use tools_installer.Platform.{Platform}
use tools_installer.Resolve.{rank, excludes, below_floor, kind_applies, applies, resolve_methods}

abbrev pub ladder : Method → ℕ
ladder m = rank m.kind

-- What a kind of method asks of the host.
abbrev pub KindSuits : Kind → Platform → Type 0
KindSuits dnf p = (p.immutable ≡ false) × (p.os ≡ "fedora")
KindSuits apt p = (p.immutable ≡ false) × (p.os ≡ "debian")
KindSuits pacman p = (p.immutable ≡ false) × (p.os ≡ "arch")
KindSuits rpm_ostree p = ⊥
KindSuits brew p = p.has_brew ≡ true
KindSuits cask p = (p.os ≡ "macos") × (p.has_brew ≡ true)
KindSuits _ p = Unit

abbrev pub Suits : Platform → Method → Type 0
Suits p m =
    (excludes m.os p.os ≡ false)
    × (excludes m.arch p.arch ≡ false)
    × (below_floor m p ≡ false)
    × KindSuits m.kind p

native_suits :
    (p : Platform) (native : String)
    → (if p.immutable then false else native == p.os) ≡ true
    → (p.immutable ≡ false) × (p.os ≡ native)
native_suits p native h = elim (Bool-cases p.immutable) [
  | inl holds ↦ ground arith
  | inr fails ↦ (fails, sym ((eq_iff native p.os).0 (ground arith)))
]

kind_applies-KindSuits : (k : Kind) (p : Platform) → kind_applies k p ≡ true → KindSuits k p
unfolding kind_applies
kind_applies-KindSuits dnf p h = native_suits p "fedora" h
kind_applies-KindSuits apt p h = native_suits p "debian" h
kind_applies-KindSuits pacman p h = native_suits p "arch" h
kind_applies-KindSuits rpm_ostree p h = ground arith
kind_applies-KindSuits brew p h = h
kind_applies-KindSuits cask p h = elim (Bool-cases (p.os == "macos")) [
  | inl holds ↦ ((eq_iff p.os "macos").0 holds, ground arith)
  | inr fails ↦ ground arith
]
kind_applies-KindSuits _ p h = tt

applies-Suits : (p : Platform) (m : Method) → applies m p ≡ true → Suits p m
unfolding applies
applies-Suits p m h = elim (Bool-cases (excludes m.os p.os)) [
  | inl holds ↦ ground arith
  | inr os ↦ elim (Bool-cases (excludes m.arch p.arch)) [
    | inl holds ↦ ground arith
    | inr arch ↦ elim (Bool-cases (below_floor m p)) [
      | inl holds ↦ ground arith
      | inr floor ↦ (os, arch, floor, kind_applies-KindSuits m.kind p (ground arith))
    ]
  ]
]

filter-All : (p : Platform) (ms : List Method) → All (Suits p) (filter (λ m. applies m p) ms)
filter-All p [] = tt
filter-All p (m ∷ ms) = elim (Bool-cases (applies m p)) [
  | inl holds ↦ rw holds (applies-Suits p m holds, filter-All p ms)
  | inr fails ↦ rw fails (filter-All p ms)
]

-- The methods of `resolve_methods` suit the host: neither `os`, `arch` nor `min_os_version`
-- excludes them, a native manager is that of the host's system and the host is not immutable,
-- `brew` and `cask` have Homebrew, a cask is on macOS, and none is `rpm_ostree`. They stand in the
-- order of their ranks, and the methods of one rank are all of the tool's that apply, in the
-- tool's order.
pub resolve_methods-ladder :
    (tool : Tool) (p : Platform)
    → All (Suits p) (resolve_methods tool p)
      × IsSorted ladder (resolve_methods tool p)
      × ((k : ℕ)
          → of_key ladder k (resolve_methods tool p)
            ≡ of_key ladder k (filter (λ m. applies m p) tool.methods))
unfolding resolve_methods
resolve_methods-ladder tool p = (
  sorted-All ladder (Suits p) (filter (λ m. applies m p) tool.methods) (filter-All p tool.methods),
  sorted-IsSorted ladder (filter (λ m. applies m p) tool.methods),
  λ k. sorted-of_key ladder k (filter (λ m. applies m p) tool.methods),
)

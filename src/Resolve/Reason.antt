-- ===== src/Resolve/Reason.antt =====
-- installer/resolve.py, `unavailable_reason`: the sentence for a tool that no platform supports.
use Prim.Native.Nat.{Ordering}
use Prim.Native.String.{compare}
use tools_installer.Base.{
  String, Bool, true, false, Option, none, some, List, [], ◌∷◌, ◌++◌, map, if◌then◌else◌, all,
  contains, get, concat, join,
}
use tools_installer.Model.{Kind, cask, Method, Tool}
use tools_installer.Platform.{Platform}
use tools_installer.Resolve.{
  native_os, kind_name, str_of, Category, os, arch, min_os_version, immutable, rejection, with_brew,
  platform_could_support,
}

pub record UnavailableReason : Type 0 where
  pub short : String
  pub detail : String

-- `params.get("min_os_version")` in an f-string; a missing one is spelled `None`.
floor_text : Method → String
unfolding get str_of
floor_text m = elim (get "min_os_version" m.params) [ none ↦ "None" | some floor ↦ str_of floor ]

method_short : Category → Platform → Method → String
unfolding floor_text concat
method_short os p m = concat (p.os ∷ " not supported" ∷ [])
method_short arch p m = concat ("not built for " ∷ p.arch ∷ [])
method_short min_os_version p m = concat ("needs macOS " ∷ floor_text m ∷ "+" ∷ [])
method_short immutable p m = "immutable host"

-- `reason`, where every method is rejected for the one category. `oses` is `_supported_oses(tool)`.
reason_for : List String → Category → Tool → Method → Platform → UnavailableReason
unfolding floor_text concat join kind_name
reason_for oses os tool m p = record {
  short = concat (p.os ∷ " not supported" ∷ []);
  detail = concat (tool.id ∷ " only supports " ∷ join ", " oses ∷ "." ∷ []);
}
reason_for oses arch tool m p = record {
  short = concat ("not built for " ∷ p.arch ∷ []);
  detail = concat (tool.id ∷ " is not built for " ∷ p.arch ∷ "." ∷ []);
}
reason_for oses min_os_version tool m p = record {
  short = concat ("needs macOS " ∷ floor_text m ∷ "+" ∷ []);
  detail = concat (tool.id ∷ " needs macOS " ∷ floor_text m ∷ " or newer." ∷ []);
}
reason_for oses immutable tool m p = record {
  short = "immutable host";
  detail = concat (
      tool.id
      ∷ " only declares native package-manager methods ("
      ∷ join "/" (map (λ k. kind_name k.kind) tool.methods)
      ∷ "), which this installer skips on an immutable (ostree) host."
      ∷ []);
}

abbrev is_cask : Kind → Bool
is_cask cask = true
is_cask _ = false

-- `found.add(os)`
add : String → List String → List String
add x xs = if contains x xs then xs else xs ++ x ∷ []

add_all : List String → List String → List String
unfolding add
add_all [] found = found
add_all (x ∷ xs) found = add_all xs (add x found)

-- One round of the loop of `_supported_oses`.
add_method : Method → List String → List String
unfolding add_all native_os
add_method m found =
    let found' = add_all m.os found in
    elim (native_os m.kind) [
      | some native ↦ add native found'
      | none ↦ if is_cask m.kind then add "macos" found' else found'
    ]

add_methods : List Method → List String → List String
unfolding add_method
add_methods [] found = found
add_methods (m ∷ ms) found = add_methods ms (add_method m found)

-- `sorted` on texts
insert_text : String → List String → List String
insert_text x [] = x ∷ []
insert_text x (y ∷ ys) =
    let rest = insert_text x ys in elim (compare x y) [ Ordering.gt ↦ y ∷ rest | _ ↦ x ∷ y ∷ ys ]

sort_texts : List String → List String
unfolding insert_text
sort_texts [] = []
sort_texts (x ∷ xs) = insert_text x (sort_texts xs)

unfoldable pub supported_oses : Tool → List String
unfolding add_methods sort_texts
supported_oses tool = sort_texts (add_methods tool.methods [])

same_category : Category → Category → Bool
same_category os os = true
same_category arch arch = true
same_category min_os_version min_os_version = true
same_category immutable immutable = true
same_category _ _ = false

-- From `rejected = […]` on, for a tool with the methods `first ∷ rest`.
reasons : Tool → Method → List Method → Platform → UnavailableReason
unfolding rejection same_category method_short reason_for supported_oses
reasons tool first rest p =
    let category = rejection first p in
    let shorts = map (λ m. method_short (rejection m p) p m) (first ∷ rest) in
    let sentence = concat ("no method applies here: " ∷ join "; " shorts ∷ []) in
    if all (λ m. same_category (rejection m p) category) rest
    then reason_for (supported_oses tool) category tool first p
    else record { short = sentence; detail = sentence }

-- The rest of `unavailable_reason`, from `if not tool.methods` on.
explained : Tool → List Method → Platform → UnavailableReason
unfolding reasons
explained tool [] p = record {
  short = "no install method";
  detail = concat (tool.id ∷ " declares no install method." ∷ []);
}
explained tool (first ∷ rest) p = reasons tool first rest p

unfoldable pub unavailable_reason : Tool → Platform → Option UnavailableReason
unfolding platform_could_support explained
unavailable_reason tool p =
    if platform_could_support tool p then none else some (explained tool tool.methods (with_brew p))

-- ===== src/Policy/Load/Tests.antt =====
-- The theorems on loading at a directory with one custom policy and three drop-ins, of which one is
-- a directory.
use carriers.Base.{
  Text, Bytes, true, not, ◌||◌, some, List, [], ◌∷◌, codes, ok, ◌==◌, text_eq, text_beq,
  if◌then◌else◌, ◌⊎◌, inl, inr, ◌≡◌, refl,
}
use carriers.Files.{Files, file_stem}
use carriers.Policy.{PolicyEngine, lookup, is_builtin}
use carriers.Policy.Load.{compile_builtin, compile_dir, new, load_root}
use carriers.Policy.Load.Extends.{core}
use carriers.Policy.Load.Builtins.{load_root-builtin}
use carriers.Policy.Load.DropIns.{compile_dir-order, InOrder}
use carriers.Policy.Tests.{trees, keeps}

abbrev pub root : Text
root = codes "/r"

abbrev pub before_d : Text
before_d = codes "/r/before.d"

abbrev pub moderation : Text
moderation = codes "/r/moderation_policies"

-- The names in a directory.
abbrev pub tree : Text → List (Text ⊎ Text)
tree dir =
    if dir == before_d
    then inl (codes "b.sieve")
      ∷ inl (codes "notes.txt")
      ∷ inr (codes "denied")
      ∷ inl (codes "a.sieve")
      ∷ inl (codes "d.sieve")
      ∷ []
    else if dir == moderation
    then inl (codes "mine.sieve") ∷ []
    else []

abbrev pub disk : Files
disk = record {
  is_dir =
      λ path. (path == before_d) || (path == moderation) || (path == codes "/r/before.d/d.sieve");
  is_file = λ path. not (path == codes "/r/before.d/d.sieve");
  read_dir = λ path. inl (tree path);
  read = λ path. inl [];
  read_to_string = λ path. inl [];
  exists = λ path. true;
}

abbrev pub no_source : Text → Bytes
no_source name = []

abbrev pub bare : PolicyEngine trees
bare = record {
  loop_check = keeps;
  duplicate_check = keeps;
  list_headers = keeps;
  dmarc_before_gate = keeps;
  dmarc_after_gate = keeps;
  munge_from_script = keeps;
  subject_prefix_script = keeps;
  policies =
      (codes "moderated", keeps)
      ∷ (codes "posters", keeps)
      ∷ (codes "subscribers", keeps)
      ∷ (codes "open", keeps)
      ∷ [];
  global_before = [];
  global_after = [];
  domains = [];
}

abbrev loaded : PolicyEngine trees
loaded = record bare {
  policies = (codes "mine", keeps) ∷ bare.policies;
  global_before = keeps ∷ keeps ∷ [];
}

load_root-loaded : load_root trees disk no_source root ≡ ok loaded
unfolding load_root text_beq file_stem
load_root-loaded = refl

load_root-builtin_example :
    (e0 : PolicyEngine trees) × ((script : trees.Script) × ((new trees no_source ≡ ok e0)
        × ((core trees loaded ≡ core trees e0)
            × ((compile_builtin trees no_source (codes "open") ≡ ok script)
                × (lookup (codes "open") loaded.policies ≡ some script)))))
load_root-builtin_example =
    load_root-builtin trees no_source disk root (codes "open") loaded load_root-loaded
      (unfold is_builtin text_beq in refl)

compile_dir-order_example : InOrder trees disk (codes "global before") before_d (keeps ∷ keeps ∷ [])
compile_dir-order_example =
    compile_dir-order trees disk (codes "global before") before_d (keeps ∷ keeps ∷ [])
      (unfold compile_dir text_beq in refl)

-- ===== src/Balancer/Maglev.antt =====
-- pkg/cluster/loadbalancer/maglev/permutation.go: the permutations of a Maglev table, its size and its
-- look-ups. `ProbablyPrime` and the hashes are parameters. How the table is populated is not modelled.
use dubbo_go_pixiu.Prelude.{
  ℕ, ◌+◌, ◌*◌, ◌-◌, ◌%◌, ◌<◌, Bool, false, not, ◌&&◌, ◌||◌, ◌≡◌, refl, Option, none, some, List, [],
  ◌∷◌, ◌++◌, ◌==◌, ltb, if◌then◌else◌, length, get_elem?, arith,
}
use dubbo_go_pixiu.Prelude.Text.{Text}

-- `defaultTableSize`.
abbrev small_sizes : List ℕ
small_sizes =
    307 ∷ 503 ∷ 1511 ∷ 2503 ∷ 5099 ∷ 7877 ∷ 10007 ∷ 14207 ∷ 20903 ∷ 40423 ∷ 88721 ∷ 123911 ∷ 164821
    ∷ 199999 ∷ 218077 ∷ 299777 ∷ 344941 ∷ 399989 ∷ 463031 ∷ 514399 ∷ 604613 ∷ 686669 ∷ 726337
    ∷ 799789 ∷ 857011 ∷ []

abbrev pub default_table_size : List ℕ
default_table_size = small_sizes ++ 999983 ∷ []

pub record Permutation : Type 0 where
  pub offset : ℕ
  pub skip : ℕ
  pub next : ℕ
  pub index : ℕ
  pub hit : ℕ

abbrev two32 : ℕ
two32 = 4294967296

-- `position`, with the multiplication and the addition of uint32.
unfoldable pub position : Permutation → ℕ → ℕ → ℕ
position p j size = (p.offset + (j % two32) * p.skip) % two32 % size

pub record LookUpTable : Type 0 where
  pub slots : List Text
  pub permutations : List Permutation
  pub buckets : List (ℕ × Text)
  pub endpoint_num : ℕ
  pub size : ℕ

abbrev number_from : ℕ → List Text → List (ℕ × Text)
number_from i [] = []
number_from i (h ∷ hs) = (i, h) ∷ number_from (i + 1) hs

-- The loop over the default sizes; the size stays 0 if none is large enough.
unfoldable pub closest_size : ℕ → List ℕ → ℕ
closest_size expect_n [] = 0
closest_size expect_n (size ∷ sizes) =
    if ltb expect_n size then size else closest_size expect_n sizes

abbrev pub made : ℕ → List Text → LookUpTable
made size hosts = record {
  slots = [];
  permutations = [];
  buckets = number_from 0 hosts;
  endpoint_num = length hosts;
  size = size;
}

-- `NewLookUpTable`, of a size that is not negative; `none` is the error.
module _ (probably_prime : ℕ → Bool) where
  abbrev pub table_of : ℕ → List Text → Option LookUpTable
  table_of size hosts =
      if ltb size (length hosts * 100) && not (probably_prime size)
      then none
      else some (made size hosts)

  unfoldable pub new_look_up_table : ℕ → List Text → Option LookUpTable
  new_look_up_table table_size hosts =
      table_of
        (if table_size == 0
          then closest_size (length hosts * 100) default_table_size
          else table_size)
        hosts

-- `resetPerms`.
unfoldable pub reset_perms : List Permutation → List Permutation
reset_perms [] = []
reset_perms (p ∷ ps) = record p { next = 0; hit = 0 } ∷ reset_perms ps

-- `removePerm`: the first permutation of the index goes.
unfoldable pub remove_perm : ℕ → List Permutation → List Permutation
remove_perm dst [] = []
remove_perm dst (p ∷ ps) = if p.index == dst then ps else p ∷ remove_perm dst ps

module _ (hash1 hash2 : Text → ℕ) where
  -- `generatePerm`: the permutation that it appends.
  unfoldable pub generate_perm : ℕ → Text → ℕ → Permutation
  generate_perm size bucket i =
      let m = size % two32 in
      record {
        offset = hash1 bucket % m;
        skip = (hash2 bucket % (m - 1) + 1) % two32;
        next = 0;
        index = i;
        hit = 0;
      }

  -- `generatePerms`.
  unfoldable pub generate_perms : ℕ → List (ℕ × Text) → List Permutation
  generate_perms size [] = []
  generate_perms size ((i, b) ∷ bs) = generate_perm size b i ∷ generate_perms size bs

pub data Looked : Type 0 where
  no_slot no_host : Looked
  slot : Option Text → Looked

-- `GetHash`: a slot is `slot`, with no text where the index is out of range.
unfoldable pub get_hash : LookUpTable → ℕ → Looked
get_hash t key = elim t.slots [
  | [] ↦ no_slot
  | s ∷ ss ↦
      if t.size == 0 || t.endpoint_num == 0
      then no_host
      else slot (get_elem? (s ∷ ss) (key % (t.size % two32)))
]

closest_size-lt : (n last : ℕ) (sizes : List ℕ) → n < last → n < closest_size n (sizes ++ last ∷ [])
unfolding closest_size
closest_size-lt n last [] h = ground arith
closest_size-lt n last (size ∷ sizes) h = ground (arith, closest_size-lt n last sizes h)

table_of-large :
    (probably_prime : ℕ → Bool) (size : ℕ) (hosts : List Text)
    → length hosts * 100 < size
    → (t : LookUpTable) × (table_of probably_prime size hosts ≡ some t)
      × (length hosts * 100 < t.size)
      × (t.endpoint_num ≡ length hosts)
table_of-large probably_prime size hosts h =
    let taken : (ltb size (length hosts * 100) && not (probably_prime size)) ≡ false =
      ground arith in
    (made size hosts, rw taken refl, h, refl)

-- Without a configured size a table of fewer than 10,000 hosts is made, and it has more than 100 slots for
-- each host, whatever the test for primes says.
pub new_look_up_table_size :
    (probably_prime : ℕ → Bool) (hosts : List Text)
    → length hosts < 10000
    → (t : LookUpTable) × (new_look_up_table probably_prime 0 hosts ≡ some t)
      × (length hosts * 100 < t.size)
      × (t.endpoint_num ≡ length hosts)
unfolding new_look_up_table
new_look_up_table_size probably_prime hosts few =
    table_of-large probably_prime (closest_size (length hosts * 100) default_table_size) hosts
      (closest_size-lt (length hosts * 100) 999983 small_sizes (omega arith))

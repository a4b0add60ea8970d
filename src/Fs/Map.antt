-- ===== src/Fs/Map.antt =====
-- The ordered map of a directory: its laws, and the order that its operations keep.
use alilu_os.Common.{◌≡◌, refl, true, false, none, some, arith}
use alilu_os.Common.{if◌then◌else◌, Text, text_eq, text_lt, text_eq_iff, text_lt_trans}
use alilu_os.Common.{text_lt_irrefl, text_lt_total}
use alilu_os.Fs.{Node, Children, end, entry, get, contains_key, insert, replace, remove}

pub get-insert :
    (k j : Text) (node : Node) (m : Children)
    → get j (insert k node m) ≡ (if text_eq k j then some node else get j m)
unfolding get insert
get-insert k j node end = refl
get-insert k j node (entry i old m) =
    ground (arith, text_eq_iff k j, text_eq_iff i k, text_eq_iff i j, get-insert k j node m)

pub get-replace :
    (k j : Text) (node old : Node) (m : Children)
    → get k m ≡ some old
    → get j (replace k node m) ≡ (if text_eq k j then some node else get j m)
unfolding get replace
get-replace k j node old end h = cc
get-replace k j node old (entry i other m) h =
    ground (arith, text_eq_iff k j, text_eq_iff i k, text_eq_iff i j, get-replace k j node old m)

pub contains_key-get : (k : Text) (m : Children) → contains_key k m ≡ false → get k m ≡ none
unfolding get contains_key
contains_key-get k end h = refl
contains_key-get k (entry i old m) h = ground (arith, contains_key-get k m)

pub contains_key-none : (k : Text) (m : Children) → get k m ≡ none → contains_key k m ≡ false
unfolding get contains_key
contains_key-none k end h = refl
contains_key-none k (entry i old m) h = ground (arith, contains_key-none k m)

pub contains_key-some :
    (k : Text) (node : Node) (m : Children) → get k m ≡ some node → contains_key k m ≡ true
unfolding get contains_key
contains_key-some k node end h = cc
contains_key-some k node (entry i old m) h = ground (arith, contains_key-some k node m)

-- Writing back what is there changes nothing.
pub replace-get :
    (k : Text) (node : Node) (m : Children) → get k m ≡ some node → replace k node m ≡ m
unfolding get replace
replace-get k node end h = refl
replace-get k node (entry i old m) h = ground (arith, replace-get k node m)

-- Every key comes after `k`.
abbrev pub Above : Text → Children → Type 0
Above k end = Unit
Above k (entry i node m) = (text_lt k i ≡ true) × Above k m

abbrev pub Sorted : Children → Type 0
Sorted end = Unit
Sorted (entry k node m) = Above k m × Sorted m

pub Above-trans : (i k : Text) (m : Children) → text_lt i k ≡ true → Above k m → Above i m
Above-trans i k end h a = tt
Above-trans i k (entry j node m) h a = (text_lt_trans i k j h a.0, Above-trans i k m h a.1)

get-Above : (k : Text) (m : Children) → Above k m → get k m ≡ none
unfolding get
get-Above k end a = refl
get-Above k (entry i node m) a =
    ground (arith, text_eq_iff i k, text_lt_irrefl k, get-Above k m a.1)

pub Above-insert :
    (i k : Text) (node : Node) (m : Children)
    → text_lt i k ≡ true
    → Above i m
    → Above i (insert k node m)
unfolding insert
Above-insert i k node end h a = (h, tt)
Above-insert i k node (entry j old m) h a = ground (arith, Above-insert i k node m h a.1)

pub insert-Sorted : (k : Text) (node : Node) (m : Children) → Sorted m → Sorted (insert k node m)
unfolding insert
insert-Sorted k node end s = (tt, tt)
insert-Sorted k node (entry j old m) s = ground (
  arith,
  insert-Sorted k node m s.1,
  Above-insert j k node m,
  Above-trans k j m,
  text_lt_total j k,
  text_lt_total k j,
  text_eq_iff j k,
  text_eq_iff k j,
)

pub Above-replace :
    (i k : Text) (node : Node) (m : Children) → Above i m → Above i (replace k node m)
unfolding replace
Above-replace i k node end a = tt
Above-replace i k node (entry j old m) a = ground (arith, Above-replace i k node m a.1)

pub replace-Sorted : (k : Text) (node : Node) (m : Children) → Sorted m → Sorted (replace k node m)
unfolding replace
replace-Sorted k node end s = tt
replace-Sorted k node (entry j old m) s =
    ground (arith, replace-Sorted k node m s.1, Above-replace j k node m s.0)

pub Above-remove : (i k : Text) (m : Children) → Above i m → Above i (remove k m)
unfolding remove
Above-remove i k end a = tt
Above-remove i k (entry j old m) a = ground (arith, Above-remove i k m a.1)

pub remove-Sorted : (k : Text) (m : Children) → Sorted m → Sorted (remove k m)
unfolding remove
remove-Sorted k end s = tt
remove-Sorted k (entry j old m) s = ground (arith, remove-Sorted k m s.1, Above-remove j k m s.0)

pub get-remove :
    (k j : Text) (m : Children)
    → Sorted m
    → get j (remove k m) ≡ (if text_eq k j then none else get j m)
unfolding get remove
get-remove k j end s = ground arith
get-remove k j (entry i old m) s = ground (
  arith,
  text_eq_iff k j,
  text_eq_iff i k,
  text_eq_iff i j,
  get-remove k j m s.1,
  get-Above i m s.0,
)

-- ===== src/Tests/Instances.antt =====
-- Small instances of the libraries' interfaces, which evaluate.
use gss.Base.{
  Bool, ◌==◌, ℕ, zero, suc, ◌%◌, ◌≡◌, refl, ap, true, false, List, [], ◌∷◌, ◌++◌, map, Option, none,
  some, length, if◌then◌else◌,
}
use gss.Base.Int.{ℤ, pos, negsuc}
use gss.Base.Text.{Text, codes, text_eq, text_eq_iff}
use gss.Base.Try.{returned, raised, out_of_range}
use gss.Containers.Queue.{Queue}
use gss.Server.Libraries.{PosixTime, JsonLibrary, field}
use gss.Server.Task.{Task}
use gss.Server.HttpSession.Names.{Comparison, to_lower}
use gss.Server.HttpSession.Handler.{Environment, opened, no_such_file}
use gss.Server.SharedState.{SessionId, SharedState, new_state}

-- A duration is its minutes.
abbrev pub clock : PosixTime
clock = record {
  Duration = ℤ;
  of_minutes = λ n. n;
  minutes = λ d. elim d [ pos n ↦ pos (n % 60) | negsuc n ↦ negsuc (n % 60) ];
  seconds = λ d. pos 0;
  minutes_lem = λ n fits. refl;
  seconds_lem = λ n fits. refl;
}

-- Objects and arrays are chains of members.
pub data Value : Type 0 where
  null nil : Value
  string : Text → Value
  number : ℤ → Value
  member : Text → Value → Value → Value

abbrev pub object : List (Text × Value) → Value
object [] = nil
object ((key, v) ∷ fields) = member key v (object fields)

abbrev pub array : List Value → Value
array [] = nil
array (v ∷ vs) = member [] v (array vs)

abbrev pub find : Text → Value → Value
find key (member name v rest) = if text_eq name key then v else find key rest
find key _ = null

abbrev pub at : Value → Text → Option Value
at null key = some null
at nil key = some null
at (string t) key = none
at (number n) key = none
at (member name v rest) key = some (find key (member name v rest))

pub at-object :
    (key : Text) (fields : List (Text × Value))
    → at (object fields) key ≡ some (field key fields null)
at-object key [] = refl
at-object key ((name, v) ∷ fields) =
    ap (λ u. some (if text_eq name key then v else u)) (find-object fields)
  where
    find-object : (fields : List (Text × Value)) → find key (object fields) ≡ field key fields null
    find-object [] = refl
    find-object ((name, v) ∷ fields) =
        ap (λ u. if text_eq name key then v else u) (find-object fields)

pub at-put :
    (key : Text) (v : Value) (fields : List (Text × Value))
    → at (member key v (object fields)) key ≡ some v
at-put key v fields = rw ((text_eq_iff key key).1 refl)

pub at-put_other :
    (key other : Text) (v : Value) (fields : List (Text × Value))
    → text_eq key other ≡ false
    → at (member key v (object fields)) other ≡ some (field other fields null)
at-put_other key other v [] ne = rw ne
at-put_other key other v ((name, w) ∷ fields) ne = rw ne (at-object other ((name, w) ∷ fields))

-- A tag, the length of a text before it, and the parts of a member one after the other.
abbrev pub dump : Value → Text
dump null = 0 ∷ []
dump nil = 1 ∷ []
dump (string t) = 2 ∷ length t ∷ t
dump (number (pos n)) = 3 ∷ n ∷ []
dump (number (negsuc n)) = 4 ∷ n ∷ []
dump (member key v rest) = 5 ∷ length key ∷ (key ++ (dump v ++ dump rest))

abbrev pub split : ℕ → Text → Option (Text × Text)
split zero t = some ([], t)
split (suc n) [] = none
split (suc n) (c ∷ t) =
    let rest = split n t in elim rest [ none ↦ none | some (a, b) ↦ some (c ∷ a, b) ]

abbrev pub read : ℕ → Text → Option (Value × Text)
read zero t = none
read (suc k) (zero ∷ t) = some (null, t)
read (suc k) (suc zero ∷ t) = some (nil, t)
read (suc k) (suc (suc zero) ∷ n ∷ t) = elim (split n t) [
  | none ↦ none
  | some (a, b) ↦ some (string a, b)
]
read (suc k) (suc (suc (suc zero)) ∷ n ∷ t) = some (number (pos n), t)
read (suc k) (suc (suc (suc (suc zero))) ∷ n ∷ t) = some (number (negsuc n), t)
read (suc k) (suc (suc (suc (suc (suc zero)))) ∷ n ∷ t) = elim (split n t) [
  | none ↦ none
  | some (key, b) ↦ elim (read k b) [
    | none ↦ none
    | some (v, c) ↦ elim (read k c) [ none ↦ none | some (rest, d) ↦ some (member key v rest, d) ]
  ]
]
read (suc k) _ = none

abbrev pub parse : Text → Option Value
parse t = elim (read (length t) t) [ some (v, []) ↦ some v | _ ↦ none ]

abbrev pub json : JsonLibrary
json = record {
  Json = Value;
  parse = parse;
  dump = dump;
  null = null;
  string = string;
  number = number;
  array = array;
  object = object;
  at = at;
  put = λ j key v. member key v j;
  get_string = λ j. elim j [ string t ↦ some t | _ ↦ none ];
  get_int = λ j. elim j [ number n ↦ some n | _ ↦ none ];
  IsUtf8 = λ j. parse (dump j) ≡ some j;
  parse-dump = λ j good. good;
  at-object = at-object;
  at-put = at-put;
  at-put_other = at-put_other;
  get_string-string = λ t. refl;
  get_int-number = λ n fits. refl;
}

abbrev pub comparison : Comparison
comparison = record {
  iequals = λ s t. text_eq (map to_lower s) (map to_lower t);
  iequals_iff = λ s t. text_eq_iff (map to_lower s) (map to_lower t);
}

-- There is one file, of 12 bytes.
abbrev pub environment : Environment
environment = record {
  time = clock;
  json = json;
  comparison = comparison;
  server_name = codes "gss";
  open_file = λ path. if text_eq path (codes "/srv/index.html") then opened 12 else no_such_file;
}

-- A queue that is a sequence of values.
abbrev pub plain_queue : Queue (Task clock)
plain_queue = record {
  Carrier = List (Task clock);
  contents = λ q. q;
  new_list = [];
  push_back = λ v q. q ++ v ∷ [];
  pop_front = λ q. elim q [ [] ↦ raised (out_of_range "Empty list.") | v ∷ vs ↦ returned vs ];
  front = λ q. elim q [ [] ↦ raised (out_of_range "Empty list.") | v ∷ vs ↦ returned v ];
  empty = λ q. elim q [ [] ↦ true | v ∷ vs ↦ false ];
  contents-new_list = refl;
  contents-push_back = λ v q. refl;
  pop_front-nil = λ q e. rw e refl;
  pop_front-cons = λ q v vs e. (vs, rw e refl, refl);
  front-nil = λ q e. rw e refl;
  front-cons = λ q v vs e. rw e refl;
  empty-nil = λ q e. rw e refl;
  empty-cons = λ q v vs e fits. rw e refl;
}

-- A task of more than an hour, and a server without sessions and tasks.
abbrev pub wash : Task clock
wash = record { assignee = codes "Ann"; desc = codes "wash"; duration = pos 75 }

abbrev pub root : Text
root = codes "/srv/"

abbrev pub fresh : SharedState plain_queue
fresh = new_state plain_queue root

-- Session 1 is alive, and is Ann's.
abbrev pub alive : SessionId → Bool
alive x = x == 1

abbrev pub ann : SessionId → Text
ann x = if x == 1 then codes "Ann" else []

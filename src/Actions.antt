-- ===== src/Actions.antt =====
-- The action buttons of the desktop app (crates/ipn-gui/src/actions.rs): the colours, the file's
-- content, splitting a command line, and running an action. A text is the list of its characters.
-- Starting a process is outside: `run` returns what is to be started.
pub mod Split
pub mod Expand
use nullgate.Common.{
  ℕ, zero, suc, ◌-◌, Bool, true, false, not, ◌&&◌, ◌||◌, ◌≡◌, Option, none, some, List, [], ◌∷◌,
  ◌++◌, map, ◌==◌, length, if◌then◌else◌,
}
use nullgate.Common.HashMap.{Key, get, put, delete}
use nullgate.Common.Results.{Result, ok, err}
use nullgate.Common.Text.{Text, codes, is_whitespace}
use nullgate.Roster.Addresses.Place.{is_some}
use Prim.Native.String.{String}

pub data ActionColor : Type 0 where
  blue teal green yellow orange red purple slate : ActionColor

abbrev pub all_colors : List ActionColor
all_colors = blue ∷ teal ∷ green ∷ yellow ∷ orange ∷ red ∷ purple ∷ slate ∷ []

unfoldable pub id : ActionColor → String
id blue = "blue"
id teal = "teal"
id green = "green"
id yellow = "yellow"
id orange = "orange"
id red = "red"
id purple = "purple"
id slate = "slate"

unfoldable pub display : ActionColor → String
display blue = "Blue"
display teal = "Teal"
display green = "Green"
display yellow = "Yellow"
display orange = "Orange"
display red = "Red"
display purple = "Purple"
display slate = "Slate"

unfoldable pub vivid : ActionColor → String
vivid blue = "#3584e4"
vivid teal = "#21b5c4"
vivid green = "#33d17a"
vivid yellow = "#e5a50a"
vivid orange = "#ff7800"
vivid red = "#e01b24"
vivid purple = "#c061cb"
vivid slate = "#9a9996"

unfoldable pub text : Bool → String
text dark = if dark then "#ffffff" else "#000000"

pub record DeviceAction : Type 0 where
  pub label : Text
  pub color : ActionColor
  pub command : Text
  pub terminal : Bool

pub record Actions (NodeHex : Type 0) : Type 0 where
  pub version : ℕ
  pub actions : List (NodeHex × DeviceAction)

abbrev pub default_actions : {NodeHex : Type 0} → Actions NodeHex
default_actions = record { version = 1; actions = [] }

module _ {NodeHex : Type 0} ⦃same : Key NodeHex⦄ where
  unfoldable pub get_action : NodeHex → Actions NodeHex → Option DeviceAction
  get_action node a = get node a.actions

  unfoldable pub set_action : NodeHex → DeviceAction → Actions NodeHex → Actions NodeHex
  set_action node action a = record a { actions = put node action a.actions }

  unfoldable pub remove_action : NodeHex → Actions NodeHex → Actions NodeHex
  remove_action node a = record a { actions = delete node a.actions }

-- What the loop of `tokenize` carries.
pub record Scan : Type 0 where
  pub out : List Text
  pub cur : Text
  pub quoted : Bool
  pub started : Bool

abbrev pub scan_start : Scan
scan_start = record { out = []; cur = []; quoted = false; started = false }

-- A double quote is the character 34.
unfoldable pub scan_char : ℕ → Scan → Scan
scan_char c s =
    if c == 34
    then record s { quoted = not s.quoted; started = true }
    else if is_whitespace c && not s.quoted
    then if s.started then record s { out = s.out ++ s.cur ∷ []; cur = []; started = false } else s
    else record s { cur = s.cur ++ c ∷ []; started = true }

unfoldable pub scan_all : Text → Scan → Scan
unfolding scan_char
scan_all [] s = s
scan_all (c ∷ line) s = scan_all line (scan_char c s)

abbrev pub scanned : Scan → List Text
scanned s = if s.started then s.out ++ s.cur ∷ [] else s.out

unfoldable pub tokenize : Text → List Text
unfolding scan_all
tokenize line = scanned (scan_all line scan_start)

-- The fields of a `MemberView` that an action reads.
pub record MemberView : Type 0 where
  pub node_id : Text
  pub label : Option Text
  pub hostname : Option Text
  pub virtual_ip : Option Text

abbrev pub first_chars : ℕ → Text → Text
first_chars zero s = []
first_chars (suc n) [] = []
first_chars (suc n) (c ∷ s) = c ∷ first_chars n s

abbrev pub or_text : Option Text → Text → Text
or_text none t = t
or_text (some s) t = s

unfoldable pub display_name : MemberView → Text
display_name m = or_text m.label (or_text m.hostname (first_chars 8 m.node_id))

abbrev pub begins : Text → Text → Bool
begins [] s = true
begins (p ∷ ps) [] = false
begins (p ∷ ps) (c ∷ s) = p == c && begins ps s

-- `str::contains`, of a pattern that is not empty.
abbrev pub contains_text : Text → Text → Bool
contains_text pat [] = false
contains_text pat (c ∷ s) = begins pat (c ∷ s) || contains_text pat s

-- `str::replace` of a pattern that is not empty, from the left; the number is how many characters
-- of a match are still to be passed over.
unfoldable pub replace_from : Text → Text → ℕ → Text → Text
replace_from pat by skip [] = []
replace_from pat by (suc n) (c ∷ s) = replace_from pat by n s
replace_from pat by zero (c ∷ s) =
    let found = begins pat (c ∷ s) in
    let rest = replace_from pat by (if found then length pat - 1 else 0) s in
    if found then by ++ rest else c ∷ rest

unfoldable pub replace : Text → Text → Text → Text
unfolding replace_from
replace pat by s = replace_from pat by 0 s

abbrev pub ip_mark : Text
ip_mark = codes "{ip}"

abbrev pub name_mark : Text
name_mark = codes "{name}"

abbrev pub hostname_mark : Text
hostname_mark = codes "{hostname}"

abbrev pub node_id_mark : Text
node_id_mark = codes "{node_id}"

unfoldable pub expand : MemberView → Text → Text
unfolding replace display_name
expand m token = replace node_id_mark m.node_id (
    replace hostname_mark (or_text m.hostname [])
      (replace name_mark (display_name m) (replace ip_mark (or_text m.virtual_ip []) token)))

pub data RunError : Type 0 where
  no_command no_ip : RunError

-- The process that is started, in a terminal or detached.
pub record Spawn : Type 0 where
  pub program : Text
  pub args : List Text
  pub in_terminal : Bool

unfoldable pub spawn : DeviceAction → MemberView → List Text → Result RunError Spawn
unfolding expand
spawn action m [] = err no_command
spawn action m (program ∷ args) =
    if contains_text ip_mark action.command && not (is_some m.virtual_ip)
    then err no_ip
    else ok (record {
      program = expand m program;
      args = map (expand m) args;
      in_terminal = action.terminal;
    })

unfoldable pub run_action : DeviceAction → MemberView → Result RunError Spawn
unfolding tokenize spawn
run_action action m = spawn action m (tokenize action.command)

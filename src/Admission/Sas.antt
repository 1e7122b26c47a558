-- ===== src/Admission/Sas.antt =====
-- The short authentication string (admission.rs: `sas_emojis`, `SAS_EMOJI`, `SAS_WORD`,
-- `word_for_emoji`, `sas_words`). `u32` values keep their width; the bytes are those of the HMAC.
pub mod Bits
pub mod Words
use nullgate.Common.{
  ℕ, zero, suc, ◌+◌, ◌-◌, ◌*◌, ◌/◌, ◌%◌, ◌^◌, Bool, true, false, Option, none, some, List, [], ◌∷◌,
  ◌++◌, ltb, if◌then◌else◌, get_or,
}
use text.Mathlib.Text.{is_eq}
use Prim.Native.String.{String, compare}

abbrev pub sas_emoji : List String
sas_emoji =
    "🐶" ∷ "🐱" ∷ "🦁" ∷ "🐎" ∷ "🦄" ∷ "🐷" ∷ "🐘" ∷ "🐰" ∷ "🐼" ∷ "🐓" ∷ "🐧" ∷ "🐢" ∷ "🐟" ∷ "🐙" ∷ "🦋" ∷ "🌷"
    ∷ "🌳" ∷ "🌵" ∷ "🍄" ∷ "🌏" ∷ "🌙" ∷ "☁\u{fe0f}" ∷ "🔥" ∷ "🍌" ∷ "🍎" ∷ "🍓" ∷ "🌽" ∷ "🍕" ∷ "🎂"
    ∷ "❤\u{fe0f}" ∷ "😀" ∷ "🤖" ∷ "🎩" ∷ "👓" ∷ "🔧" ∷ "🎅" ∷ "👍" ∷ "☂\u{fe0f}" ∷ "⌛" ∷ "⏰" ∷ "🎁" ∷ "💡"
    ∷ "📕" ∷ "✏\u{fe0f}" ∷ "📎" ∷ "✂\u{fe0f}" ∷ "🔒" ∷ "🔑" ∷ "🔨" ∷ "☎\u{fe0f}" ∷ "🏁" ∷ "🚂" ∷ "🚲"
    ∷ "✈\u{fe0f}" ∷ "🚀" ∷ "🏆" ∷ "⚽" ∷ "🎸" ∷ "🎺" ∷ "🔔" ∷ "⚓" ∷ "🎧" ∷ "📁" ∷ "📌" ∷ []

abbrev pub sas_word : List String
sas_word =
    "Dog" ∷ "Cat" ∷ "Lion" ∷ "Horse" ∷ "Unicorn" ∷ "Pig" ∷ "Elephant" ∷ "Rabbit" ∷ "Panda"
    ∷ "Rooster" ∷ "Penguin" ∷ "Turtle" ∷ "Fish" ∷ "Octopus" ∷ "Butterfly" ∷ "Flower" ∷ "Tree"
    ∷ "Cactus" ∷ "Mushroom" ∷ "Globe" ∷ "Moon" ∷ "Cloud" ∷ "Fire" ∷ "Banana" ∷ "Apple"
    ∷ "Strawberry" ∷ "Corn" ∷ "Pizza" ∷ "Cake" ∷ "Heart" ∷ "Smiley" ∷ "Robot" ∷ "Hat" ∷ "Glasses"
    ∷ "Wrench" ∷ "Santa" ∷ "Thumbs Up" ∷ "Umbrella" ∷ "Hourglass" ∷ "Clock" ∷ "Gift" ∷ "Light Bulb"
    ∷ "Book" ∷ "Pencil" ∷ "Paperclip" ∷ "Scissors" ∷ "Lock" ∷ "Key" ∷ "Hammer" ∷ "Telephone"
    ∷ "Flag" ∷ "Train" ∷ "Bicycle" ∷ "Airplane" ∷ "Rocket" ∷ "Trophy" ∷ "Ball" ∷ "Guitar"
    ∷ "Trumpet" ∷ "Bell" ∷ "Anchor" ∷ "Headphones" ∷ "Folder" ∷ "Pin" ∷ []

-- The loop variables `acc`, `nbits` and `idx`.
pub record Reader : Type 0 where
  pub acc : ℕ
  pub nbits : ℕ
  pub idx : ℕ

unfoldable pub refill : List ℕ → Reader → Reader
refill bytes s =
    if ltb s.nbits 6
    then record {
      acc = s.acc * 2 ^ 8 % 2 ^ 32 + get_or bytes s.idx 0;
      nbits = s.nbits + 8;
      idx = s.idx + 1;
    }
    else s

-- The indices that the loop reads, for the number of rounds left: six bits from each.
unfoldable pub sas_indices : ℕ → List ℕ → Reader → List ℕ
sas_indices zero bytes s = []
sas_indices (suc rounds) bytes s =
    let r = refill bytes s in
    let nbits = r.nbits - 6 in
    (r.acc / 2 ^ nbits % 2 ^ 6)
    ∷ sas_indices rounds bytes (record { acc = r.acc; nbits = nbits; idx = r.idx })

abbrev pub lookups : List String → List ℕ → List String
lookups table [] = []
lookups table (i ∷ more) = get_or table i "" ∷ lookups table more

abbrev pub first_reader : Reader
first_reader = record { acc = 0; nbits = 0; idx = 0 }

-- b"sas"
abbrev pub sas_domain : List ℕ
sas_domain = 115 ∷ 97 ∷ 115 ∷ []

unfoldable pub sas_emojis : (List ℕ → List ℕ → List ℕ) → List ℕ → List ℕ → List String
sas_emojis hmac psk transcript =
    lookups sas_emoji (sas_indices 7 (hmac psk (sas_domain ++ transcript)) first_reader)

-- `position` in one table, and the entry of the other.
unfoldable pub find_word : String → List String → List String → Option String
find_word emoji (e ∷ emojis) (w ∷ words) =
    if is_eq (compare e emoji) then some w else find_word emoji emojis words
find_word emoji _ _ = none

unfoldable pub word_for_emoji : String → Option String
word_for_emoji emoji = find_word emoji sas_emoji sas_word

abbrev pub or_unknown : Option String → String
or_unknown none = "?"
or_unknown (some w) = w

unfoldable pub sas_words : List String → List String
sas_words [] = []
sas_words (e ∷ sas) = or_unknown (word_for_emoji e) ∷ sas_words sas

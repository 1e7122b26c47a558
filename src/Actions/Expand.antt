-- ===== src/Actions/Expand.antt =====
-- Placeholder expansion against the substitution of all placeholders at once
-- (crates/ipn-gui/src/actions.rs: `expand`).
use nullgate.Common.{◌≡◌, refl, ap, ◌∙◌, false, List, [], ◌∷◌, ◌++◌, ◌==◌}
use nullgate.Common.Text.{Text, codes, All}
use nullgate.Actions.{
  MemberView, or_text, display_name, replace_from, replace, ip_mark, name_mark, hostname_mark,
  node_id_mark, expand,
}

pub data Placeholder : Type 0 where
  ip name hostname node_id : Placeholder

-- A piece of a token.
pub data Part : Type 0 where
  literal : Text → Part
  hole : Placeholder → Part

-- No opening brace, the character 123.
abbrev pub NoBrace : Text → Type 0
NoBrace = All (λ c. (123 == c) ≡ false)

abbrev pub NoBraces : List Part → Type 0
NoBraces [] = Unit
NoBraces (literal t ∷ parts) = NoBrace t × NoBraces parts
NoBraces (hole p ∷ parts) = NoBraces parts

unfoldable pub render : (Placeholder → Text) → List Part → Text
render value [] = []
render value (literal t ∷ parts) = t ++ render value parts
render value (hole p ∷ parts) = value p ++ render value parts

abbrev pub mark : Placeholder → Text
mark ip = ip_mark
mark name = name_mark
mark hostname = hostname_mark
mark node_id = node_id_mark

abbrev pub value_of : MemberView → Placeholder → Text
value_of m ip = or_text m.virtual_ip []
value_of m name = display_name m
value_of m hostname = or_text m.hostname []
value_of m node_id = m.node_id

abbrev pub ValuesNoBrace : MemberView → Type 0
ValuesNoBrace m = (p : Placeholder) → NoBrace (value_of m p)

-- A replacement of `pat` turns the text `from` into `to` wherever it stands.
abbrev Turns : Text → Text → Text → Text → Type 0
Turns pat by from to =
    (rest : Text) → replace_from pat by 0 (from ++ rest) ≡ to ++ replace_from pat by 0 rest

Turns-NoBrace : (pat by t : Text) → NoBrace t → Turns (123 ∷ pat) by t t
unfolding replace_from
Turns-NoBrace pat by [] h rest = refl
Turns-NoBrace pat by (c ∷ t) h rest = rw h.0 (ap (◌∷◌ c) (Turns-NoBrace pat by t h.1 rest))

render-Turns :
    (pat by : Text) (before after : Placeholder → Text) (parts : List Part)
    → NoBraces parts
    → ((p : Placeholder) → Turns (123 ∷ pat) by (before p) (after p))
    → replace (123 ∷ pat) by (render before parts) ≡ render after parts
unfolding replace render replace_from
render-Turns pat by before after [] h turns = refl
render-Turns pat by before after (literal t ∷ parts) h turns =
    Turns-NoBrace pat by t h.0 (render before parts)
    ∙ ap (λ s. t ++ s) (render-Turns pat by before after parts h.1 turns)
render-Turns pat by before after (hole p ∷ parts) h turns =
    turns p (render before parts)
    ∙ ap (λ s. after p ++ s) (render-Turns pat by before after parts h turns)

-- What the placeholders have become after some of the replacements.
abbrev after_ip : MemberView → Placeholder → Text
after_ip m ip = value_of m ip
after_ip m p = mark p

abbrev after_name : MemberView → Placeholder → Text
after_name m name = value_of m name
after_name m p = after_ip m p

abbrev after_hostname : MemberView → Placeholder → Text
after_hostname m hostname = value_of m hostname
after_hostname m p = after_name m p

module _ (m : MemberView) (plain : ValuesNoBrace m) where
  -- The values have no brace, so that no replacement changes them.
  Turns-kept :
      (target p : Placeholder)
      → Turns (mark target) (value_of m target) (value_of m p) (value_of m p)
  Turns-kept ip p = Turns-NoBrace (codes "ip}") (value_of m ip) (value_of m p) (plain p)
  Turns-kept name p = Turns-NoBrace (codes "name}") (value_of m name) (value_of m p) (plain p)
  Turns-kept hostname p =
      Turns-NoBrace (codes "hostname}") (value_of m hostname) (value_of m p) (plain p)
  Turns-kept node_id p =
      Turns-NoBrace (codes "node_id}") (value_of m node_id) (value_of m p) (plain p)

  Turns-ip : (p : Placeholder) → Turns ip_mark (value_of m ip) (mark p) (after_ip m p)
  unfolding replace_from
  Turns-ip ip rest = refl
  Turns-ip name rest = refl
  Turns-ip hostname rest = refl
  Turns-ip node_id rest = refl

  Turns-name : (p : Placeholder) → Turns name_mark (value_of m name) (after_ip m p) (after_name m p)
  unfolding replace_from
  Turns-name ip rest = Turns-kept name ip rest
  Turns-name name rest = refl
  Turns-name hostname rest = refl
  Turns-name node_id rest = refl

  Turns-hostname :
      (p : Placeholder)
      → Turns hostname_mark (value_of m hostname) (after_name m p) (after_hostname m p)
  unfolding replace_from
  Turns-hostname ip rest = Turns-kept hostname ip rest
  Turns-hostname name rest = Turns-kept hostname name rest
  Turns-hostname hostname rest = refl
  Turns-hostname node_id rest = refl

  Turns-node_id :
      (p : Placeholder)
      → Turns node_id_mark (value_of m node_id) (after_hostname m p) (value_of m p)
  unfolding replace_from
  Turns-node_id ip rest = Turns-kept node_id ip rest
  Turns-node_id name rest = Turns-kept node_id name rest
  Turns-node_id hostname rest = Turns-kept node_id hostname rest
  Turns-node_id node_id rest = refl

  -- When neither the values of the member nor the text around the placeholders has an opening
  -- brace, a token of literal text and placeholders is expanded to the text with all of the
  -- member's values in their places.
  pub expand-render :
      (parts : List Part)
      → NoBraces parts
      → expand m (render mark parts) ≡ render (value_of m) parts
  unfolding expand
  expand-render parts h =
      rw
        (
          render-Turns (codes "ip}") (value_of m ip) mark (after_ip m) parts h Turns-ip,
          render-Turns (codes "name}") (value_of m name) (after_ip m) (after_name m) parts h
              Turns-name,
          render-Turns (codes "hostname}") (value_of m hostname) (after_name m) (after_hostname m)
              parts h Turns-hostname,
        )
        (render-Turns (codes "node_id}") (value_of m node_id) (after_hostname m) (value_of m) parts
          h Turns-node_id)

-- ===== src/Http/Host.antt =====
-- `requestHost`: the host of the header Host, without its port.
use mathlib.Core.List.{append-nil, append_assoc}
use remy_desk.Base.{
  ℕ, ◌≡◌, ap, ◌∙◌, refl, Bool, true, false, ◌&&◌, not, ◌==◌, Option, none, some, List, [], ◌∷◌,
  ◌++◌, arith, if◌then◌else◌,
}
use remy_desk.Base.Text.{codes}
use remy_desk.Files.{has_byte}

-- What stands before the first `b`; `none` where there is none.
unfoldable pub before_first : ℕ → List ℕ → Option (List ℕ)
before_first b [] = none
before_first b (x ∷ bytes) =
    if x == b
    then some []
    else elim (before_first b bytes) [ none ↦ none | some front ↦ some (x ∷ front) ]

unfoldable pub request_host : List ℕ → List ℕ
request_host [] = codes "127.0.0.1"
request_host (c ∷ host) =
    if c == 91
    then elim (before_first 93 (c ∷ host)) [ none ↦ c ∷ host | some front ↦ front ++ (93 ∷ []) ]
    else elim (before_first 58 (c ∷ host)) [ none ↦ c ∷ host | some front ↦ front ]

-- A host as clients write it: a name or an IPv4 address, or an IPv6 address in brackets.
pub data Host : Type 0 where
  named : (first : ℕ) (name : List ℕ) → Host
  bracketed : List ℕ → Host

abbrev pub host_text : Host → List ℕ
host_text (named first name) = first ∷ name
host_text (bracketed address) = 91 ∷ (address ++ (93 ∷ []))

abbrev pub port_text : Option (List ℕ) → List ℕ
port_text none = []
port_text (some port) = 58 ∷ port

-- A name has no colon and no bracket in front, an address no closing bracket.
abbrev pub is_host : Host → Bool
is_host (named first name) = not (first == 91) && not (has_byte 58 (first ∷ name))
is_host (bracketed address) = not (has_byte 93 address)

before_first-append :
    (b : ℕ) (front rest : List ℕ)
    → has_byte b front ≡ false
    → before_first b (front ++ (b ∷ rest)) ≡ some front
unfolding before_first
before_first-append b [] rest h = ground arith
before_first-append b (x ∷ front) rest h =
    let other : x == b ≡ false = ground arith in
    let more = before_first-append b front rest (ground arith) in rw (other, more) refl

before_first-none :
    (b : ℕ) (front : List ℕ) → has_byte b front ≡ false → before_first b front ≡ none
unfolding before_first
before_first-none b [] h = refl
before_first-none b (x ∷ front) h =
    let other : x == b ≡ false = ground arith in
    let more = before_first-none b front (ground arith) in rw (other, more) refl

-- The host is found whether or not a port follows it.
pub request_host-port :
    (h : Host) (port : Option (List ℕ))
    → is_host h ≡ true
    → request_host (host_text h ++ port_text port) ≡ host_text h
unfolding request_host
request_host-port (named first name) none ok =
    let other : first == 91 ≡ false = ground arith in
    let whole = before_first-none 58 (first ∷ name) (ground arith) in
    ap (λ l. request_host (first ∷ l)) (append-nil name) ∙ rw (other, whole) refl
request_host-port (named first name) (some port) ok =
    let other : first == 91 ≡ false = ground arith in
    let front = before_first-append 58 (first ∷ name) port (ground arith) in rw (other, front) refl
request_host-port (bracketed address) port ok =
    let front = before_first-append 93 (91 ∷ address) (port_text port) (ground arith) in
    rw (append_assoc address (93 ∷ []) (port_text port), front) refl

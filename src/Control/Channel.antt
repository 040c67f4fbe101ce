-- ===== src/Control/Channel.antt =====
-- src/control.rs: messages that leave a channel as the lines of a stream, in their order.
use seestar_proxy.Base.{◌≡◌, refl, sym, ap, ◌∙◌, List, [], ◌∷◌, ◌++◌, append_assoc}
use seestar_proxy.Base.Text.{Text, codes}

-- `format!("{}\r\n", msg)`.
abbrev pub as_line : Text → Text
as_line t = t ++ codes "\r\n"

abbrev pub as_lines : List Text → List Text
as_lines [] = []
as_lines (t ∷ ts) = as_line t ∷ as_lines ts

pub as_lines-append : (ts us : List Text) → as_lines (ts ++ us) ≡ as_lines ts ++ as_lines us
as_lines-append [] us = refl
as_lines-append (t ∷ ts) us = ap (◌∷◌ (as_line t)) (as_lines-append ts us)

-- Two parts of a run: what has left and what waits is what has come.
pub chain :
    (q q' q'' came came' gone gone' : List Text)
    → gone ++ as_lines q' ≡ as_lines (q ++ came)
    → gone' ++ as_lines q'' ≡ as_lines (q' ++ came')
    → (gone ++ gone') ++ as_lines q'' ≡ as_lines (q ++ (came ++ came'))
chain q q' q'' came came' gone gone' h k =
    append_assoc gone gone' (as_lines q'')
    ∙ ap (λ r. gone ++ r) (k ∙ as_lines-append q' came')
    ∙ sym (append_assoc gone (as_lines q') (as_lines came'))
    ∙ ap (λ r. r ++ as_lines came') h
    ∙ sym (as_lines-append (q ++ came) came')
    ∙ ap as_lines (append_assoc q came came')

-- ===== src/Domain/Confirmation.antt =====
-- lib/domain/confirmation.ts: which answers confirm the terms that were read. Texts are lists of
-- code points. `normalize("NFD")` and `toLowerCase()`, which go by the Unicode tables of the
-- JavaScript engine, are the parameters `nfd` and `lower_case`.
pub mod Words
pub mod Veto
use Prim.Native.String.{String}
use volta_hackathon.Prelude.{
  ℕ, Bool, true, false, not, ◌&&◌, ◌||◌, List, [], ◌∷◌, ◌++◌, leb, ltb, if◌then◌else◌, all, any,
  filter, length, map,
}
use volta_hackathon.Prelude.Text.{is_space}
use Words.{
  Text, codes, is_punctuation, trim, words, replace_word, squeeze, has_phrase, member, is_empty,
}

abbrev phrases : List String → List Text
phrases ps = map codes ps

-- `/[\u0300-\u036f]/g`
abbrev pub is_mark : ℕ → Bool
is_mark c = leb 0x300 c && leb c 0x36f

-- The words that walk an answer back, qualify it, defer it or borrow authority.
unfoldable pub contradiction : List Text
contradiction =
    phrases (
      "no" ∷ "nao" ∷ "pero" ∷ "mas" ∷ "porem" ∷ "contudo" ∷ "todavia" ∷ "aunque" ∷ "embora"
      ∷ "excepto" ∷ "exceto" ∷ "salvo" ∷ [])
    ++ (phrases (
          "corrijo" ∷ "correccion" ∷ "correcao" ∷ "cambiar" ∷ "cambio" ∷ "cambia" ∷ "mudar" ∷ "muda"
          ∷ "trocar" ∷ "alterar" ∷ "ajustar" ∷ [])
        ++ (phrases (
              "espera" ∷ "esperen" ∷ "espere" ∷ "aguarda" ∷ "aguarde" ∷ "equivoque" ∷ "errei"
              ∷ "error" ∷ "erro" ∷ [])
            ++ (phrases (
                  "casi" ∷ "quase" ∷ "quiza" ∷ "quizas" ∷ "talvez" ∷ "acho" ∷ "creo" ∷ "penso"
                  ∷ "deberia" ∷ "deveria" ∷ "sinembargo" ∷ [])
                ++ (phrases (
                      "antes de" ∷ "primeiro" ∷ "primero" ∷ "depois" ∷ "despues" ∷ "mais tarde"
                      ∷ "luego" ∷ [])
                    ++ (phrases (
                          "jefe" ∷ "chefe" ∷ "patron" ∷ "patrao" ∷ "gerente" ∷ "supervisor"
                          ∷ "director" ∷ "diretor" ∷ "dueno" ∷ "dono" ∷ "boss" ∷ "manager" ∷ [])
                        ++ (phrases (
                              "aprobo" ∷ "aprovou" ∷ "autorizo" ∷ "autorizou" ∷ "libero" ∷ "liberou"
                              ∷ "permitiu" ∷ "permitio" ∷ "approved" ∷ "authorized" ∷ "authorised"
                              ∷ [])
                            ++ (phrases (
                                  "not" ∷ "dont" ∷ "doesnt" ∷ "cant" ∷ "wont" ∷ "but" ∷ "however"
                                  ∷ "except" ∷ "unless" ∷ "actually" ∷ "instead" ∷ [])
                                ++ (phrases (
                                      "change" ∷ "changed" ∷ "correction" ∷ "wait" ∷ "hold"
                                      ∷ "maybe" ∷ "almost" ∷ "think" ∷ "guess" ∷ "should" ∷ "would"
                                      ∷ "need to" ∷ "have to" ∷ [])
                                    ++ phrases (
                                        "first" ∷ "later" ∷ "after" ∷ "before" ∷ "check" ∷ "verify"
                                        ∷ "call you back" ∷ "get back" ∷ [])))))))))

unfoldable pub conditional : List Text
conditional =
    phrases ("si" ∷ "se" ∷ "caso" ∷ "cuando" ∷ "quando" ∷ "desde" ∷ "if" ∷ "when" ∷ "once" ∷ [])

unfoldable pub confirms : List Text
confirms = phrases (
    "confirmo" ∷ "confirmado" ∷ "confirmada" ∷ "confirmamos" ∷ "confirma" ∷ "deacuerdo" ∷ "correcto"
    ∷ "correcta" ∷ "correto" ∷ "correta" ∷ "exacto" ∷ "exactamente" ∷ "exato" ∷ "acepto"
    ∷ "aceptamos" ∷ "aceito" ∷ "aceitamos" ∷ "fechado" ∷ "fechamos" ∷ "combinado" ∷ "tratohecho"
    ∷ "afirmativo" ∷ "confirmed" ∷ "confirm" ∷ "correct" ∷ "agreed" ∷ "agree" ∷ "accepted"
    ∷ "goahead" ∷ [])

unfoldable pub bare_yes : List Text
bare_yes = phrases (
    "si" ∷ "sim" ∷ "claro" ∷ "isso" ∷ "exato" ∷ "certo" ∷ "positivo" ∷ "yes" ∷ "yeah" ∷ "yep"
    ∷ "sure" ∷ [])

unfoldable pub supporting : List Text
unfolding bare_yes
supporting =
    bare_yes
    ++ (phrases (
          "senor" ∷ "senora" ∷ "senorita" ∷ "senhor" ∷ "senhora" ∷ "sr" ∷ "sra" ∷ "todo" ∷ "todos"
          ∷ "toda" ∷ "todas" ∷ "tudo" ∷ "los" ∷ "las" ∷ "os" ∷ "as" ∷ "terminos" ∷ "termino"
          ∷ "termos" ∷ "condiciones" ∷ "condicoes" ∷ [])
        ++ (phrases (
              "bien" ∷ "bem" ∷ "esta" ∷ "estan" ∷ "e" ∷ "es" ∷ "eso" ∷ "esos" ∷ "isso" ∷ "asi"
              ∷ "assim" ∷ "y" ∷ "e" ∷ "muy" ∷ "muito" ∷ "gracias" ∷ "obrigado" ∷ "obrigada" ∷ [])
            ++ (phrases (
                  "ok" ∷ "okay" ∷ "vale" ∷ "listo" ∷ "perfecto" ∷ "perfeito" ∷ "adelante" ∷ "beleza"
                  ∷ "que" ∷ "lo" ∷ "el" ∷ "la" ∷ "o" ∷ "a" ∷ "mismo" ∷ "certinho" ∷ [])
                ++ phrases (
                    "all" ∷ "the" ∷ "terms" ∷ "that" ∷ "is" ∷ "it" ∷ "sir" ∷ "maam" ∷ "madam"
                    ∷ "thanks" ∷ "thank" ∷ "you" ∷ "good" ∷ "great" ∷ "fine" ∷ "right" ∷ []))))

abbrev pub max_words : ℕ
max_words = 12

all_but_last : List Text → List Text
all_but_last [] = []
all_but_last (x ∷ []) = []
all_but_last (x ∷ y ∷ ys) = x ∷ all_but_last (y ∷ ys)

-- `words[i]` for `1 <= i < words.length - 1`.
unfoldable pub inner_words : List Text → List Text
unfolding all_but_last
inner_words [] = []
inner_words (w ∷ ws) = all_but_last ws

abbrev first_word_in : List Text → List Text → Bool
first_word_in set [] = false
first_word_in set (w ∷ ws) = member set w

-- The tests on the normalized text, which the two exported functions share.
unfoldable pub is_disqualified : Text → Bool
is_disqualified normalized =
    is_empty normalized
    || has_phrase contradiction normalized
    || any (member conditional) (inner_words (words normalized))

unfoldable pub is_unequivocal : Text → Bool
is_unequivocal normalized =
    let ws = words normalized in
    if is_empty normalized || has_phrase contradiction normalized
    then false
    else if leb (length ws) 0 || ltb max_words (length ws)
    then false
    else if any (member conditional) (inner_words ws)
    then false
    else if has_phrase confirms normalized
    then true
    else first_word_in bare_yes ws && all (member supporting) ws

module _ (nfd lower_case : Text → Text) where
  unfoldable pub normalize : Text → Text
  normalize value =
      let folded = lower_case (filter (λ c. not (is_mark c)) (nfd value)) in
      let spaced = squeeze is_punctuation false folded in
      let a = replace_word (codes "de acuerdo" ∷ []) (codes "deacuerdo") spaced in
      let b = replace_word (codes "sin embargo" ∷ []) (codes "sinembargo") a in
      let c = replace_word (codes "trato hecho" ∷ []) (codes "tratohecho") b in
      let d =
        replace_word (codes "that is right" ∷ codes "thats right" ∷ codes "that's right" ∷ [])
          (codes "correct") c in
      let e = replace_word (codes "go ahead" ∷ []) (codes "goahead") d in
      trim (squeeze is_space false e)

  unfoldable pub has_disqualifier : Text → Bool
  unfolding normalize is_disqualified
  has_disqualifier value = is_disqualified (normalize value)

  unfoldable pub is_unequivocal_confirmation : Text → Bool
  unfolding normalize is_unequivocal
  is_unequivocal_confirmation value = is_unequivocal (normalize value)

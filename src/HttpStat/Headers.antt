-- ===== src/HttpStat/Headers.antt =====
-- cmd/httpstat/main.go: splitting a header of the command line, and the order of the printed ones.
use conniver.Prelude.{
  Bool, true, false, not, ◌||◌, Option, none, some, [], ◌∷◌, ◌==◌, if◌then◌else◌,
}
use conniver.Prelude.Text.{Text, codes, ◌=ₜ◌, span, trim_left, trim_right, ltₜ}

abbrev after_colon : Text → Text → Option (Text × Text)
after_colon key [] = none
after_colon key (c ∷ s) =
    some (trim_right (λ d. d == b' ') key, trim_left (λ d. d == b' ' || d == b':') (c ∷ s))

-- headerKeyValue; `none` is its log.Fatalf.
unfoldable pub header_key_value : Text → Option (Text × Text)
header_key_value h = let (key, rest) = span (λ c. not (c == b':')) h in after_colon key rest

abbrev pub is_server : Text → Bool
is_server n = n =ₜ codes "Server"

-- The function `endtoend`.
abbrev pub end_to_end : Text → Bool
end_to_end n = not (
    n =ₜ codes "Connection"
    || (n =ₜ codes "Keep-Alive"
        || (n =ₜ codes "Proxy-Authenticate"
            || (n =ₜ codes "Proxy-Authorization"
                || (n =ₜ codes "TE"
                    || (n =ₜ codes "Trailers"
                        || (n =ₜ codes "Transfer-Encoding" || n =ₜ codes "Upgrade")))))))

abbrev same : Bool → Bool → Bool
same true y = y
same false y = not y

-- The comparison once neither name is Server, by the classes of both.
abbrev pub by_class : Bool → Bool → Text → Text → Bool
by_class x y a b = if same x y then ltₜ a b else x

-- Less of two names.
unfoldable pub less : Text → Text → Bool
less a b =
    if is_server a
    then true
    else if is_server b
    then false
    else by_class (end_to_end a) (end_to_end b) a b

-- ===== src/Text/Tests.antt =====
-- Formats, numbers and names at concrete texts.
use eaburns_sos.Prelude.{ℕ, ◌≡◌, ◌↔◌, arith, List, [], ◌∷◌, ◌++◌, some, false}
use eaburns_sos.Text.Compare.{Console, kstrcmp, equal}
use eaburns_sos.Text.Compare.Laws.{IsString, kstrcmp_lem}
use eaburns_sos.Text.Number.{itoa, itoa_digits, itoa_lowercase, itoa_buff_len}
use eaburns_sos.Text.Number.Laws.{lower, value_from, itoa_lem}
use eaburns_sos.Text.Format.{Arguments, kprintf, ended}
use eaburns_sos.Text.Format.Laws.{literal, conversion, render, meaning, kprintf_lem, Item}

abbrev con : List ℕ
con = b'c' ∷ b'o' ∷ b'n' ∷ []

abbrev console : List ℕ
console = b'c' ∷ b'o' ∷ b'n' ∷ b's' ∷ []

con-IsString : IsString con
con-IsString = omega arith

console-IsString : IsString console
console-IsString = omega arith

kstrcmp_example : (kstrcmp con console ≡ equal) ↔ ((rest : List ℕ) × (console ≡ con ++ rest))
kstrcmp_example = kstrcmp_lem con console con-IsString console-IsString

abbrev bconsole : ℕ → Console ℕ
bconsole n = record { name = con; write = 4096; priority = n }

itoa_example :
    ((itoa_digits itoa_lowercase 16 itoa_buff_len 48879).0 ≡ false)
    × (value_from 16 0 (itoa 48879 16 itoa_lowercase) ≡ 48879)
itoa_example = itoa_lem 16 itoa_lowercase lower 48879 (omega arith)

abbrev stack : Arguments
stack = record { word = λ n. 255; string_at = λ a. console }

abbrev hello : List Item
hello = literal b'a' ∷ conversion b'x' ∷ conversion b's' ∷ []

kprintf_example : kprintf stack 4 (render hello) ≡ some (ended (meaning stack 0 hello))
kprintf_example = kprintf_lem stack hello (omega arith)

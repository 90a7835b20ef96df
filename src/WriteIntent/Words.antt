-- ===== src/WriteIntent/Words.antt =====
-- The words of a request, and the vocabularies of the guard (tokenize and the constants of
-- crates/chat/src/engine/write_intent.rs).
use Prim.Native.Char.{Char}
use fineract_ai_backend.Prelude.{ℕ, String, Bool, not, ◌||◌, List, [], ◌∷◌, map, if◌then◌else◌}
use fineract_ai_backend.Validate.Numerals.{Chars, text_of, is_char}

abbrev pub leading_filler : List String
leading_filler =
    "please" ∷ "pls" ∷ "kindly" ∷ "can" ∷ "could" ∷ "would" ∷ "will" ∷ "you" ∷ "jarvis" ∷ "hey"
    ∷ "hi" ∷ "tolong" ∷ "mohon" ∷ "bisa" ∷ "bisakah" ∷ "coba" ∷ "silakan" ∷ []

abbrev pub mutation_verbs : List String
mutation_verbs =
    "delete" ∷ "remove" ∷ "erase" ∷ "purge" ∷ "update" ∷ "modify" ∷ "change" ∷ "edit" ∷ "rename"
    ∷ "insert" ∷ "add" ∷ "create" ∷ "make" ∷ "open" ∷ "reopen" ∷ "close" ∷ "drop" ∷ "truncate"
    ∷ "alter" ∷ "approve" ∷ "reject" ∷ "disburse" ∷ "activate" ∷ "deactivate" ∷ "reverse" ∷ "undo"
    ∷ "assign" ∷ "unassign" ∷ "waive" ∷ "hapus" ∷ "hapuskan" ∷ "hapuslah" ∷ "ubah" ∷ "ubahlah"
    ∷ "ganti" ∷ "gantikan" ∷ "perbarui" ∷ "perbaharui" ∷ "tambah" ∷ "tambahkan" ∷ "masukkan"
    ∷ "buat" ∷ "buatkan" ∷ "buka" ∷ "setujui" ∷ "tolak" ∷ "cairkan" ∷ "tutup" ∷ "aktifkan"
    ∷ "nonaktifkan" ∷ "batalkan" ∷ []

abbrev pub determiners : List String
determiners =
    "a" ∷ "an" ∷ "the" ∷ "all" ∷ "every" ∷ "each" ∷ "this" ∷ "these" ∷ "that" ∷ "those" ∷ "my"
    ∷ "new" ∷ "semua" ∷ "seluruh" ∷ "setiap" ∷ "sebuah" ∷ "satu" ∷ "baru" ∷ "ini" ∷ "itu" ∷ []

abbrev pub entities : List String
entities =
    "client" ∷ "clients" ∷ "customer" ∷ "customers" ∷ "account" ∷ "accounts" ∷ "loan" ∷ "loans"
    ∷ "office" ∷ "offices" ∷ "branch" ∷ "branches" ∷ "group" ∷ "groups" ∷ "center" ∷ "centers"
    ∷ "staff" ∷ "user" ∷ "users" ∷ "transaction" ∷ "transactions" ∷ "product" ∷ "products"
    ∷ "charge" ∷ "charges" ∷ "gl" ∷ "nasabah" ∷ "klien" ∷ "rekening" ∷ "akun" ∷ "pinjaman"
    ∷ "kantor" ∷ "cabang" ∷ "kelompok" ∷ "transaksi" ∷ "produk" ∷ "biaya" ∷ "pengguna" ∷ "petugas"
    ∷ []

abbrev pub ddl_objects : List String
ddl_objects =
    "table" ∷ "database" ∷ "schema" ∷ "column" ∷ "index" ∷ "view" ∷ "user" ∷ "role" ∷ "function"
    ∷ "trigger" ∷ []

abbrev pub privileges : List String
privileges = "select" ∷ "insert" ∷ "update" ∷ "delete" ∷ "all" ∷ "usage" ∷ "execute" ∷ []

abbrev pub scheduler_nouns : List String
scheduler_nouns = "job" ∷ "jobs" ∷ "batch" ∷ "scheduler" ∷ "cob" ∷ []

abbrev pub rerun_verbs : List String
rerun_verbs = "rerun" ∷ "retrigger" ∷ "trigger" ∷ "restart" ∷ "picu" ∷ "ulangi" ∷ []

abbrev pub object_window : ℕ
object_window = 3

-- `char::is_alphanumeric` and `str::to_lowercase` go by the tables of Unicode.
pub record Unicode : Type 0 where
  pub is_alphanumeric : Char → Bool
  pub to_lowercase : Chars → Chars

abbrev pub is_separator : Unicode → Char → Bool
is_separator unicode c = not (unicode.is_alphanumeric c || is_char b'_' c)

-- A character in front of the first piece.
abbrev pub prefix : Char → List Chars → List Chars
prefix c [] = (c ∷ []) ∷ []
prefix c (piece ∷ pieces) = (c ∷ piece) ∷ pieces

-- str::split: the pieces between the characters that pass.
abbrev pub split : (Char → Bool) → Chars → List Chars
split test [] = [] ∷ []
split test (c ∷ cs) = if test c then [] ∷ split test cs else prefix c (split test cs)

abbrev pub nonempty : List Chars → List Chars
nonempty [] = []
nonempty ([] ∷ pieces) = nonempty pieces
nonempty ((c ∷ cs) ∷ pieces) = (c ∷ cs) ∷ nonempty pieces

unfoldable pub tokenize : Unicode → Chars → List String
tokenize unicode text =
    map (λ piece. text_of (unicode.to_lowercase piece))
      (nonempty (split (is_separator unicode) text))

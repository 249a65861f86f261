-- ===== src/Tests/Codec.antt =====
-- A concrete way to write the messages of proto/block_data.proto as bytes and to read them back, for
-- runs that need one.
use pingfs.Base.{
  ℕ, zero, suc, List, [], ◌∷◌, ◌++◌, Option, none, some, Bytes, length, ◌≡◌, refl, ap, ◌∙◌,
}
use pingfs.BlockData.ReadWriteExecute.{ReadWriteExecuteProto}
use pingfs.BlockData.FileType.{FileTypeProto}
use pingfs.BlockData.Mode.{ModeProto}
use pingfs.BlockData.Stat.{StatProto}
use pingfs.BlockData.Data.{DirFileProto, LinkProto, FileContentsProto, BlockDataProto}
use pingfs.BlockData.Block.{BlockProto}

-- Writes a value in front of bytes, and reads it off again.
pub record Codec (A : Type 0) : Type 0 where
  pub enc : A → Bytes → Bytes
  pub dec : Bytes → A × Bytes
  pub law : (a : A) (rest : Bytes) → dec (enc a rest) ≡ (a, rest)

abbrev pub dec_number : Bytes → ℕ × Bytes
dec_number [] = (0, [])
dec_number (n ∷ rest) = (n, rest)

abbrev pub number : Codec ℕ
number = record { enc = λ n rest. n ∷ rest; dec = dec_number; law = λ n rest. refl }

abbrev pub dec_items : ℕ → Bytes → List ℕ × Bytes
dec_items zero rest = ([], rest)
dec_items (suc n) [] = ([], [])
dec_items (suc n) (x ∷ rest) = let (xs, rest') = dec_items n rest in (x ∷ xs, rest')

pub dec_items-append :
    (xs : List ℕ) (rest : Bytes) → dec_items (length xs) (xs ++ rest) ≡ (xs, rest)
dec_items-append [] rest = refl
dec_items-append (x ∷ xs) rest = ap (λ (ys, r). (x ∷ ys, r)) (dec_items-append xs rest)

abbrev pub dec_numbers : Bytes → List ℕ × Bytes
dec_numbers [] = ([], [])
dec_numbers (n ∷ rest) = dec_items n rest

abbrev pub numbers : Codec (List ℕ)
numbers = record {
  enc = λ xs rest. length xs ∷ xs ++ rest;
  dec = dec_numbers;
  law = dec_items-append;
}

-- A value that another codec can write, if it can be told from what is written.
abbrev pub via :
    {A B : Type 0} (f : A → B) (g : B → A) → ((a : A) → g (f a) ≡ a) → Codec B → Codec A
via f g back c = record {
  enc = λ a rest. c.enc (f a) rest;
  dec = λ bytes. let (b, rest) = c.dec bytes in (g b, rest);
  law = λ a rest. ap (λ (b, r). (g b, r)) (c.law (f a) rest) ∙ ap (λ x. (x, rest)) (back a);
}

abbrev pub both : {A B : Type 0} → Codec A → Codec B → Codec (A × B)
both c d = record {
  enc = λ (a, b) rest. c.enc a (d.enc b rest);
  dec = λ bytes. let (a, rest) = c.dec bytes in let (b, rest') = d.dec rest in ((a, b), rest');
  law = λ (a, b) rest. rw (c.law a (d.enc b rest), d.law b rest);
}

abbrev pub dec_optional : {A : Type 0} → Codec A → Bytes → Option A × Bytes
dec_optional c [] = (none, [])
dec_optional c (zero ∷ rest) = (none, rest)
dec_optional c (suc n ∷ rest) = let (a, rest') = c.dec rest in (some a, rest')

abbrev pub enc_optional : {A : Type 0} → Codec A → Option A → Bytes → Bytes
enc_optional c none rest = 0 ∷ rest
enc_optional c (some a) rest = 1 ∷ c.enc a rest

pub optional_law :
    {A : Type 0} (c : Codec A) (a : Option A) (rest : Bytes)
    → dec_optional c (enc_optional c a rest) ≡ (a, rest)
optional_law c none rest = refl
optional_law c (some a) rest = rw (c.law a rest)

abbrev pub optional : {A : Type 0} → Codec A → Codec (Option A)
optional c = record { enc = enc_optional c; dec = dec_optional c; law = optional_law c }

-- The values of the enumerations, numbered in the order of proto/block_data.proto.
abbrev pub rwe_number : ReadWriteExecuteProto → ℕ
rwe_number ReadWriteExecuteProto.unknown = 0
rwe_number ReadWriteExecuteProto.none = 1
rwe_number ReadWriteExecuteProto.read = 2
rwe_number ReadWriteExecuteProto.read_write = 3
rwe_number ReadWriteExecuteProto.read_execute = 4
rwe_number ReadWriteExecuteProto.read_write_execute = 5
rwe_number ReadWriteExecuteProto.write = 6
rwe_number ReadWriteExecuteProto.write_execute = 7
rwe_number ReadWriteExecuteProto.execute = 8

abbrev pub rwe_of : ℕ → ReadWriteExecuteProto
rwe_of (suc zero) = ReadWriteExecuteProto.none
rwe_of (suc (suc zero)) = ReadWriteExecuteProto.read
rwe_of (suc (suc (suc zero))) = ReadWriteExecuteProto.read_write
rwe_of (suc (suc (suc (suc zero)))) = ReadWriteExecuteProto.read_execute
rwe_of (suc (suc (suc (suc (suc zero))))) = ReadWriteExecuteProto.read_write_execute
rwe_of (suc (suc (suc (suc (suc (suc zero)))))) = ReadWriteExecuteProto.write
rwe_of (suc (suc (suc (suc (suc (suc (suc zero))))))) = ReadWriteExecuteProto.write_execute
rwe_of (suc (suc (suc (suc (suc (suc (suc (suc zero)))))))) = ReadWriteExecuteProto.execute
rwe_of _ = ReadWriteExecuteProto.unknown

pub rwe_of-rwe_number : (p : ReadWriteExecuteProto) → rwe_of (rwe_number p) ≡ p
rwe_of-rwe_number ReadWriteExecuteProto.unknown = refl
rwe_of-rwe_number ReadWriteExecuteProto.none = refl
rwe_of-rwe_number ReadWriteExecuteProto.read = refl
rwe_of-rwe_number ReadWriteExecuteProto.read_write = refl
rwe_of-rwe_number ReadWriteExecuteProto.read_execute = refl
rwe_of-rwe_number ReadWriteExecuteProto.read_write_execute = refl
rwe_of-rwe_number ReadWriteExecuteProto.write = refl
rwe_of-rwe_number ReadWriteExecuteProto.write_execute = refl
rwe_of-rwe_number ReadWriteExecuteProto.execute = refl

abbrev pub file_type_number : FileTypeProto → ℕ
file_type_number FileTypeProto.unknown = 0
file_type_number FileTypeProto.dir = 1
file_type_number FileTypeProto.regular = 2

abbrev pub file_type_of : ℕ → FileTypeProto
file_type_of (suc zero) = FileTypeProto.dir
file_type_of (suc (suc zero)) = FileTypeProto.regular
file_type_of _ = FileTypeProto.unknown

pub file_type_of-number : (p : FileTypeProto) → file_type_of (file_type_number p) ≡ p
file_type_of-number FileTypeProto.unknown = refl
file_type_of-number FileTypeProto.dir = refl
file_type_of-number FileTypeProto.regular = refl

abbrev pub rwe : Codec (Option ReadWriteExecuteProto)
rwe = optional (via rwe_number rwe_of rwe_of-rwe_number number)

abbrev pub mode : Codec ModeProto
mode =
    via
      {B = Option ReadWriteExecuteProto
        × (Option ReadWriteExecuteProto × (Option ReadWriteExecuteProto × Option FileTypeProto))}
      (λ p. (p.user_mode, (p.group_mode, (p.other_mode, p.file_type))))
      (λ (u, (g, (o, t))). record { user_mode = u; group_mode = g; other_mode = o; file_type = t })
      (λ p. refl)
      (both rwe (
        both rwe
          (both rwe (optional (via file_type_number file_type_of file_type_of-number number)))))

abbrev pub field_ : Codec (Option ℕ)
field_ = optional number

abbrev pub stat : Codec StatProto
stat =
    via
      {B = Option ModeProto
        × (Option ℕ × (Option ℕ × (Option ℕ × (Option ℕ × (Option ℕ × Option ℕ)))))}
      (λ p.
        (p.mode, (p.uid, (p.gid, (p.size, (p.access_time, (p.mod_time, p.status_change_time)))))))
      (λ (m, (u, (g, (s, (a, (t, c)))))). record {
        mode = m;
        uid = u;
        gid = g;
        size = s;
        access_time = a;
        mod_time = t;
        status_change_time = c;
      })
      (λ p. refl)
      (both (optional mode)
        (both field_ (both field_ (both field_ (both field_ (both field_ field_))))))

abbrev pub dir_file : Codec DirFileProto
dir_file =
    via {B = Option Bytes × (Option StatProto × List ℕ)} (λ p. (p.name, (p.stat, p.children)))
      (λ (n, (s, c)). record { name = n; stat = s; children = c }) (λ p. refl)
      (both (optional numbers) (both (optional stat) numbers))

abbrev pub link : Codec LinkProto
link = via (λ p. p.children) (λ c. record { children = c }) (λ p. refl) numbers

abbrev pub file_contents : Codec FileContentsProto
file_contents = via (λ p. p.data_) (λ c. record { data_ = c }) (λ p. refl) (optional numbers)

abbrev pub enc_data : BlockDataProto → Bytes → Bytes
enc_data BlockDataProto.not_set rest = 0 ∷ rest
enc_data (BlockDataProto.dir_file p) rest = 1 ∷ dir_file.enc p rest
enc_data (BlockDataProto.link p) rest = 2 ∷ link.enc p rest
enc_data (BlockDataProto.file_contents p) rest = 3 ∷ file_contents.enc p rest

abbrev pub dec_data : Bytes → BlockDataProto × Bytes
dec_data ((suc zero) ∷ bytes) =
    let (p, rest) = dir_file.dec bytes in (BlockDataProto.dir_file p, rest)
dec_data ((suc (suc zero)) ∷ bytes) =
    let (p, rest) = link.dec bytes in (BlockDataProto.link p, rest)
dec_data ((suc (suc (suc zero))) ∷ bytes) =
    let (p, rest) = file_contents.dec bytes in (BlockDataProto.file_contents p, rest)
dec_data (_ ∷ rest) = (BlockDataProto.not_set, rest)
dec_data [] = (BlockDataProto.not_set, [])

pub data_law : (p : BlockDataProto) (rest : Bytes) → dec_data (enc_data p rest) ≡ (p, rest)
data_law BlockDataProto.not_set rest = refl
data_law (BlockDataProto.dir_file p) rest =
    ap (λ (q, r). (BlockDataProto.dir_file q, r)) (dir_file.law p rest)
data_law (BlockDataProto.link p) rest = ap (λ (q, r). (BlockDataProto.link q, r)) (link.law p rest)
data_law (BlockDataProto.file_contents p) rest =
    ap (λ (q, r). (BlockDataProto.file_contents q, r)) (file_contents.law p rest)

abbrev pub block : Codec BlockProto
block =
    via {B = Option ℕ × Option BlockDataProto} (λ p. (p.id, p.data_))
      (λ (i, d). record { id = i; data_ = d }) (λ p. refl)
      (both field_ (optional (record { enc = enc_data; dec = dec_data; law = data_law })))

unfoldable pub serialize : BlockProto → Bytes
serialize p = block.enc p []

unfoldable pub parse : Bytes → BlockProto
parse bytes = (block.dec bytes).0

pub parse-serialize : (p : BlockProto) → parse (serialize p) ≡ p
unfolding parse serialize
parse-serialize p = ap (λ x. x.0) (block.law p [])

-- ===== src/Media/Tests.antt =====
-- A photo, and a WAHA service at http://waha:3000.
use whatsignal.Base.{
  ◌≡◌, refl, true, false, [], ◌∷◌, ◌++◌, none, some, arith, length, take, if◌then◌else◌,
}
use whatsignal.Base.Text.{Text, codes, same, to_lower, trim_prefix, has_prefix, contains}
use whatsignal.Base.Dict.{lookup, insert}
use whatsignal.Paths.{validate_file_path}
use whatsignal.Sending.{has_allowed_extension}
use whatsignal.Media.{Url, Net, Endpoints, equal_fold, endpoint_matches}
use whatsignal.Media.Urls.{validate_host, validate_parsed, validate_download_url}
use whatsignal.Media.Allowed.{IsService, IsWeb, Reaches, validate_download_url-Reaches}
use whatsignal.Media.Files.{get_media_type}
use whatsignal.Media.Cache.{
  Handler, copied, cut, Conditions, failed, copy_failed, at, cached_path, file_extension, copy_file,
  keep_file, process_content, process_file, process_parsed, process_media,
}
use whatsignal.Media.Plain.{IsPlain}
use whatsignal.Media.Intact.{NoClash, IsIntact}
use whatsignal.Media.Processed.{IsProcessed, process_media-IsProcessed}
use whatsignal.Media.HalfCopied.{IsNew, process_file-process_file}

abbrev waha : Url
waha = record { scheme = codes "http"; host = codes "waha:3000"; rest = codes "" }

abbrev photo_url : Url
photo_url = record { scheme = codes "http"; host = codes "waha:3000"; rest = codes "/photo.jpg" }

abbrev net : Net
net = record {
  parse_url = λ t.
      if same t (codes "http://waha:3000")
      then some waha
      else if same t (codes "http://waha:3000/photo.jpg")
      then some photo_url
      else none;
  render_url = λ u. u.scheme ++ u.host ++ u.rest;
  hostname = λ u. codes "waha";
  port = λ u. codes "3000";
  parse_ip = λ t. none;
  parse_uint = λ t. none;
  ipv4 = λ a b c d. a ∷ b ∷ c ∷ d ∷ [];
  is_loopback = λ ip. false;
  is_private = λ ip. false;
  is_link_local_unicast = λ ip. false;
  is_link_local_multicast = λ ip. false;
  is_unspecified = λ ip. false;
  in_network = λ network ip. false;
  lookup_host = λ name. none;
}

abbrev endpoints : Endpoints
endpoints = record { waha_base_url = codes "http://waha:3000"; signal_rpc_url = [] }

accepted : validate_download_url net endpoints (codes "http://waha:3000/photo.jpg") ≡ none
unfolding validate_download_url validate_parsed validate_host endpoint_matches equal_fold same
    to_lower
accepted = refl

validate_download_url-Reaches_example :
    (u : Url) × (net.parse_url (codes "http://waha:3000/photo.jpg") ≡ some u)
    × IsWeb net u
    × ((w : Url) × IsService net endpoints w × Reaches net u w)
validate_download_url-Reaches_example =
    validate_download_url-Reaches net endpoints (codes "http://waha:3000/photo.jpg") accepted

-- Paths are clean as they are, and a hash is the content behind its length.
abbrev handler : Handler
handler = record {
  net = net;
  endpoints = endpoints;
  paths = record {
    clean = λ t. t;
    join = λ directory name. directory ++ codes "/" ++ name;
    is_abs = λ t. false;
  };
  cache_dir = codes "cache";
  types = record { image = codes "jpg" ∷ []; video = []; voice = [] };
  sizes = record { image = 1; video = 1; voice = 1; document = 1 };
  hash = λ t. length t ∷ t;
  ext = λ t. codes ".jpg";
  detect_content_type = λ t. [];
  extensions_by_type = λ t. [];
  sources = λ t. some (codes "photo");
}

same_content :
    (c c' e e' : Text)
    → length c ≡ length c'
    → (c ++ codes ".") ++ e ≡ (c' ++ codes ".") ++ e'
    → c ≡ c'
same_content [] [] e e' l k = refl
same_content [] (x ∷ c') e e' l k = absurd (omega arith)
same_content (x ∷ c) [] e e' l k = absurd (omega arith)
same_content (x ∷ c) (x' ∷ c') e e' l k = ground (arith, same_content c c' e e')

handler-NoClash : NoClash handler
handler-NoClash c e c' e' p p' k = same_content c c' e e' (cc k) (cc k)

abbrev conditions : Conditions
conditions = record {
  now = 7;
  reads = true;
  links = false;
  copies = copied;
  answers = λ url. none;
  temp_path = none;
}

handler-IsPlain : IsPlain handler
handler-IsPlain = record { ext = λ path. refl; types = λ content_type. refl }

empty-IsIntact : IsIntact handler []
unfolding lookup
empty-IsIntact content ext f p e = absurd (cc e)

process_media-IsProcessed_example :
    IsProcessed handler conditions
      (codes "photo.jpg")
      (process_media handler conditions (codes "photo.jpg") [])
process_media-IsProcessed_example =
    process_media-IsProcessed handler conditions (codes "photo.jpg") [] handler-IsPlain
      handler-NoClash tt empty-IsIntact

photo_cached :
    (process_media handler conditions (codes "photo.jpg") []).1
    ≡ at (codes "cache/" ++ 5 ∷ codes "photo" ++ codes "." ++ codes "jpg")
unfolding process_media process_parsed process_file process_content keep_file copy_file
    file_extension to_lower trim_prefix has_prefix validate_file_path contains get_media_type
    has_allowed_extension lookup insert same
photo_cached = refl

abbrev half : Conditions
half = record conditions { copies = cut 2 }

photo-IsNew : IsNew handler (codes "photo.jpg") (codes "photo") []
unfolding file_extension to_lower trim_prefix has_prefix validate_file_path contains get_media_type
    has_allowed_extension lookup same
photo-IsNew = record {
  valid = refl;
  found = refl;
  small = refl;
  valid_target = refl;
  missing = refl;
}

process_file-process_file_example :
    let first = process_file handler half (codes "photo.jpg") [] in
    let dst =
      cached_path handler
        (codes "photo")
        (file_extension handler true (codes "photo.jpg") (codes "photo")) in
    (first.1 ≡ failed copy_failed)
    × (process_file handler conditions (codes "photo.jpg") first.0 ≡ (first.0, at dst))
    × (lookup dst first.0 ≡ some (record { content = take 2 (codes "photo"); modified = 7 }))
process_file-process_file_example =
    process_file-process_file handler half conditions (codes "photo.jpg") (codes "photo") [] 2
      photo-IsNew refl refl refl refl

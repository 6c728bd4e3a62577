-- ===== src/Codec.antt =====
-- KoalaPlayer/include/koala_type.h, enum KoalaCodecID, and KoalaPlayer/src/koala_common.c,
-- koalaCodecID2AVCodecID: codecs named by the library and by FFmpeg.
use koala_streamer.Prelude.{ℕ, ◌≡◌, refl, List, [], ◌∷◌, ◌==◌, if◌then◌else◌}

-- `no_codec` is KOALA_CODEC_ID_NONE; the order is the enumeration's.
pub data KoalaCodecId : Type 0 where
  no_codec h264 mpeg4 rv30 rv40 mpeg2video vc1 wmv3 wmv1 wmv2 msmpeg4v2 div311 flv1 svq3 :
      KoalaCodecId
  mpeg1video vp6 vp8 mjpeg h263 hevc aac ac3 eac3 dts dtse mp3 ape cook sipr qdm2 mp2 mp1 :
      KoalaCodecId
  amr_nb wmav2 wmapro pcm_s16le pcm_s16be pcm_bluray adpcm pcm_s24le pcm_u8 pcm_mulaw atrac3 :
      KoalaCodecId
  vorbis alac flac text ssa srt : KoalaCodecId

-- The value of an enumerator.
pub value : KoalaCodecId → ℕ
value no_codec = 0
value h264 = 1
value mpeg4 = 2
value rv30 = 3
value rv40 = 4
value mpeg2video = 5
value vc1 = 6
value wmv3 = 7
value wmv1 = 8
value wmv2 = 9
value msmpeg4v2 = 10
value div311 = 11
value flv1 = 12
value svq3 = 13
value mpeg1video = 14
value vp6 = 15
value vp8 = 16
value mjpeg = 17
value h263 = 18
value hevc = 19
value aac = 20
value ac3 = 21
value eac3 = 22
value dts = 23
value dtse = 24
value mp3 = 25
value ape = 26
value cook = 27
value sipr = 28
value qdm2 = 29
value mp2 = 30
value mp1 = 31
value amr_nb = 32
value wmav2 = 33
value wmapro = 34
value pcm_s16le = 35
value pcm_s16be = 36
value pcm_bluray = 37
value adpcm = 38
value pcm_s24le = 39
value pcm_u8 = 40
value pcm_mulaw = 41
value atrac3 = 42
value vorbis = 43
value alac = 44
value flac = 45
value text = 46
value ssa = 47
value srt = 48

-- The identifiers of FFmpeg that the table names (`id_none` is AV_CODEC_ID_NONE).
pub record AvCodecIds {ℓ} (A : Type ℓ) : Type ℓ where
  pub id_aac : A
  pub id_ac3 : A
  pub id_eac3 : A
  pub id_mp3 : A
  pub id_mp2 : A
  pub id_mp1 : A
  pub id_pcm_mulaw : A
  pub id_ape : A
  pub id_flac : A
  pub id_h264 : A
  pub id_hevc : A
  pub id_none : A
  pub id_pcm_s16le : A

-- `codec_paire`.
pub record CodecPaire {ℓ} (A : Type ℓ) : Type ℓ where
  pub kl_id : KoalaCodecId
  pub av_id : A

module _ {ℓ} {A : Type ℓ} (av : AvCodecIds A) where
  codec_paire_table : List (CodecPaire A)
  codec_paire_table =
      record { kl_id = aac; av_id = av.id_aac }
      ∷ record { kl_id = ac3; av_id = av.id_ac3 }
      ∷ record { kl_id = eac3; av_id = av.id_eac3 }
      ∷ record { kl_id = mp3; av_id = av.id_mp3 }
      ∷ record { kl_id = mp2; av_id = av.id_mp2 }
      ∷ record { kl_id = mp1; av_id = av.id_mp1 }
      ∷ record { kl_id = pcm_mulaw; av_id = av.id_pcm_mulaw }
      ∷ record { kl_id = ape; av_id = av.id_ape }
      ∷ record { kl_id = flac; av_id = av.id_flac }
      ∷ record { kl_id = h264; av_id = av.id_h264 }
      ∷ record { kl_id = hevc; av_id = av.id_hevc }
      ∷ record { kl_id = no_codec; av_id = av.id_none }
      ∷ record { kl_id = pcm_s16le; av_id = av.id_pcm_s16le }
      ∷ []

  search : List (CodecPaire A) → KoalaCodecId → A
  search [] codec = av.id_none
  search (p ∷ ps) codec = if value p.kl_id == value codec then p.av_id else search ps codec

  unfoldable pub koala_codec_id_to_av : KoalaCodecId → A
  unfolding codec_paire_table search value
  koala_codec_id_to_av codec = search codec_paire_table codec

  -- The codec of FFmpeg that a codec stands for, said without a table.
  unfoldable pub av_codec_of : KoalaCodecId → A
  av_codec_of aac = av.id_aac
  av_codec_of ac3 = av.id_ac3
  av_codec_of eac3 = av.id_eac3
  av_codec_of mp3 = av.id_mp3
  av_codec_of mp2 = av.id_mp2
  av_codec_of mp1 = av.id_mp1
  av_codec_of pcm_mulaw = av.id_pcm_mulaw
  av_codec_of ape = av.id_ape
  av_codec_of flac = av.id_flac
  av_codec_of h264 = av.id_h264
  av_codec_of hevc = av.id_hevc
  av_codec_of pcm_s16le = av.id_pcm_s16le
  av_codec_of _ = av.id_none

  -- Every codec is translated to FFmpeg's identifier of the same name for the twelve codecs that
  -- the table supports, and to the identifier of no codec for all others.
  pub koala_codec_id_to_av_lem :
      (codec : KoalaCodecId) → koala_codec_id_to_av codec ≡ av_codec_of codec
  unfolding koala_codec_id_to_av av_codec_of
  koala_codec_id_to_av_lem no_codec = refl
  koala_codec_id_to_av_lem h264 = refl
  koala_codec_id_to_av_lem mpeg4 = refl
  koala_codec_id_to_av_lem rv30 = refl
  koala_codec_id_to_av_lem rv40 = refl
  koala_codec_id_to_av_lem mpeg2video = refl
  koala_codec_id_to_av_lem vc1 = refl
  koala_codec_id_to_av_lem wmv3 = refl
  koala_codec_id_to_av_lem wmv1 = refl
  koala_codec_id_to_av_lem wmv2 = refl
  koala_codec_id_to_av_lem msmpeg4v2 = refl
  koala_codec_id_to_av_lem div311 = refl
  koala_codec_id_to_av_lem flv1 = refl
  koala_codec_id_to_av_lem svq3 = refl
  koala_codec_id_to_av_lem mpeg1video = refl
  koala_codec_id_to_av_lem vp6 = refl
  koala_codec_id_to_av_lem vp8 = refl
  koala_codec_id_to_av_lem mjpeg = refl
  koala_codec_id_to_av_lem h263 = refl
  koala_codec_id_to_av_lem hevc = refl
  koala_codec_id_to_av_lem aac = refl
  koala_codec_id_to_av_lem ac3 = refl
  koala_codec_id_to_av_lem eac3 = refl
  koala_codec_id_to_av_lem dts = refl
  koala_codec_id_to_av_lem dtse = refl
  koala_codec_id_to_av_lem mp3 = refl
  koala_codec_id_to_av_lem ape = refl
  koala_codec_id_to_av_lem cook = refl
  koala_codec_id_to_av_lem sipr = refl
  koala_codec_id_to_av_lem qdm2 = refl
  koala_codec_id_to_av_lem mp2 = refl
  koala_codec_id_to_av_lem mp1 = refl
  koala_codec_id_to_av_lem amr_nb = refl
  koala_codec_id_to_av_lem wmav2 = refl
  koala_codec_id_to_av_lem wmapro = refl
  koala_codec_id_to_av_lem pcm_s16le = refl
  koala_codec_id_to_av_lem pcm_s16be = refl
  koala_codec_id_to_av_lem pcm_bluray = refl
  koala_codec_id_to_av_lem adpcm = refl
  koala_codec_id_to_av_lem pcm_s24le = refl
  koala_codec_id_to_av_lem pcm_u8 = refl
  koala_codec_id_to_av_lem pcm_mulaw = refl
  koala_codec_id_to_av_lem atrac3 = refl
  koala_codec_id_to_av_lem vorbis = refl
  koala_codec_id_to_av_lem alac = refl
  koala_codec_id_to_av_lem flac = refl
  koala_codec_id_to_av_lem text = refl
  koala_codec_id_to_av_lem ssa = refl
  koala_codec_id_to_av_lem srt = refl

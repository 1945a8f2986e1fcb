-- ===== src/Dns/Builtin.antt =====
-- `BUILTIN_VIDEO_AUDIO_AD_DOMAINS` of src/modules/dns/mod.rs.
use shield_ghita.Prelude.{List, [], ◌∷◌, Bytes}
use shield_ghita.Text.{codes}

unfoldable pub builtin_ad_domains : List Bytes
builtin_ad_domains =
    codes "s.youtube.com"
    ∷ codes "ad.youtube.com"
    ∷ codes "ads.youtube.com"
    ∷ codes "youtubei.googleapis.com"
    ∷ codes "video-stats.l.google.com"
    ∷ codes "pagead2.googlesyndication.com"
    ∷ codes "pagead2.googleadservices.com"
    ∷ codes "ade.googlesyndication.com"
    ∷ codes "googleads.g.doubleclick.net"
    ∷ codes "pubads.g.doubleclick.net"
    ∷ codes "securepubads.g.doubleclick.net"
    ∷ codes "static.doubleclick.net"
    ∷ codes "adclick.g.doubleclick.net"
    ∷ codes "adservice.google.com"
    ∷ codes "adservice.google.com.vn"
    ∷ codes "googleadservices.com"
    ∷ codes "googlesyndication.com"
    ∷ codes "doubleclick.net"
    ∷ codes "app-measurement.com"
    ∷ codes "partnerad.l.google.com"
    ∷ codes "admob.com"
    ∷ codes "analytics.google.com"
    ∷ codes "googletagmanager.com"
    ∷ codes "googletagservices.com"
    ∷ codes "spclient.wg.spotify.com"
    ∷ codes "audio-ak-spotify-com.akamaized.net"
    ∷ codes "heads4-ak-spotify-com.akamaized.net"
    ∷ codes "adstudio.spotify.com"
    ∷ codes "ads-fa.spotify.com"
    ∷ codes "crashdump.spotify.com"
    ∷ codes "ad.soundcloud.com"
    ∷ codes "ads.soundcloud.com"
    ∷ codes "promoted.soundcloud.com"
    ∷ codes "countess.twitch.tv"
    ∷ codes "ads.tiktok.com"
    ∷ codes "analytics.tiktok.com"
    ∷ codes "ib.tiktokv.com"
    ∷ codes "log.byteoversea.com"
    ∷ codes "mon.zijieapi.com"
    ∷ codes "api-ad.tiktok.com"
    ∷ codes "toblog.byteoversea.com"
    ∷ codes "an.facebook.com"
    ∷ codes "ads.facebook.com"
    ∷ codes "pixel.facebook.com"
    ∷ codes "tr.facebook.com"
    ∷ codes "analytics.facebook.com"
    ∷ codes "ad.zadn.vn"
    ∷ codes "api.ad.zadn.vn"
    ∷ codes "tracking.zadn.vn"
    ∷ codes "media.zadn.vn"
    ∷ codes "sdk.e.zadn.vn"
    ∷ codes "zalo-analytics.zadn.vn"
    ∷ codes "logs.zadn.vn"
    ∷ codes "qc.nct.vn"
    ∷ codes "ad.nct.vn"
    ∷ codes "adv.zing.vn"
    ∷ codes "adt.zing.vn"
    ∷ codes "qc.coccoc.com"
    ∷ codes "adserver.coccoc.com"
    ∷ codes "dsp.coccoc.com"
    ∷ codes "catalog.coccoc.com"
    ∷ codes "tracking.shopee.vn"
    ∷ codes "criteo.shopee.vn"
    ∷ codes "api.affiliate.shopee.vn"
    ∷ codes "tracking.lazada.vn"
    ∷ codes "log.tiki.vn"
    ∷ codes "tracking.tiki.vn"
    ∷ codes "fls-na.amazon.com"
    ∷ codes "aax-us-east.amazon-adsystem.com"
    ∷ codes "c.amazon-adsystem.com"
    ∷ codes "scorecardresearch.com"
    ∷ codes "adroll.com"
    ∷ codes "criteo.com"
    ∷ codes "taboola.com"
    ∷ codes "outbrain.com"
    ∷ codes "mgid.com"
    ∷ codes "adnxs.com"
    ∷ codes "rubiconproject.com"
    ∷ codes "openx.net"
    ∷ codes "pubmatic.com"
    ∷ codes "smartadserver.com"
    ∷ codes "telemetry.microsoft.com"
    ∷ codes "vortex.data.microsoft.com"
    ∷ codes "watson.telemetry.microsoft.com"
    ∷ codes "settings-win.data.microsoft.com"
    ∷ codes "diagnostics.support.microsoft.com"
    ∷ []
